-- ===== src/Http/Status.antt =====
-- src/servers/http/http.h and src/servers/http/http.cc: the statuses, their codes and their texts.
use tiger.Base.{ℕ, List}
use tiger.Http.Bytes.{bytes}

-- The statuses of HTTP_STATUS_MAP.
pub data HttpStatus : Type 0 where
  continue_status switching_protocols processing ok_status created accepted
        non_authoritative_information no_content reset_content partial_content multi_status
        already_reported im_used multiple_choices moved_permanently found see_other not_modified
        use_proxy temporary_redirect permanent_redirect bad_request unauthorized payment_required
        forbidden not_found method_not_allowed not_acceptable proxy_authentication_required
        request_timeout conflict gone length_required precondition_failed payload_too_large
        uri_too_long unsupported_media_type range_not_satisfiable expectation_failed
        misdirected_request unprocessable_entity locked failed_dependency upgrade_required
        precondition_required too_many_requests request_header_fields_too_large
        unavailable_for_legal_reasons internal_server_error not_implemented bad_gateway
        service_unavailable gateway_timeout http_version_not_supported variant_also_negotiates
        insufficient_storage loop_detected not_extended network_authentication_required :
      HttpStatus

unfoldable pub status_code : HttpStatus → ℕ
status_code continue_status = 100
status_code switching_protocols = 101
status_code processing = 102
status_code ok_status = 200
status_code created = 201
status_code accepted = 202
status_code non_authoritative_information = 203
status_code no_content = 204
status_code reset_content = 205
status_code partial_content = 206
status_code multi_status = 207
status_code already_reported = 208
status_code im_used = 226
status_code multiple_choices = 300
status_code moved_permanently = 301
status_code found = 302
status_code see_other = 303
status_code not_modified = 304
status_code use_proxy = 305
status_code temporary_redirect = 307
status_code permanent_redirect = 308
status_code bad_request = 400
status_code unauthorized = 401
status_code payment_required = 402
status_code forbidden = 403
status_code not_found = 404
status_code method_not_allowed = 405
status_code not_acceptable = 406
status_code proxy_authentication_required = 407
status_code request_timeout = 408
status_code conflict = 409
status_code gone = 410
status_code length_required = 411
status_code precondition_failed = 412
status_code payload_too_large = 413
status_code uri_too_long = 414
status_code unsupported_media_type = 415
status_code range_not_satisfiable = 416
status_code expectation_failed = 417
status_code misdirected_request = 421
status_code unprocessable_entity = 422
status_code locked = 423
status_code failed_dependency = 424
status_code upgrade_required = 426
status_code precondition_required = 428
status_code too_many_requests = 429
status_code request_header_fields_too_large = 431
status_code unavailable_for_legal_reasons = 451
status_code internal_server_error = 500
status_code not_implemented = 501
status_code bad_gateway = 502
status_code service_unavailable = 503
status_code gateway_timeout = 504
status_code http_version_not_supported = 505
status_code variant_also_negotiates = 506
status_code insufficient_storage = 507
status_code loop_detected = 508
status_code not_extended = 510
status_code network_authentication_required = 511

-- The texts of the statuses, as `#msg` writes them.
unfoldable pub http_status_to_string : HttpStatus → List ℕ
http_status_to_string continue_status = bytes "Continue"
http_status_to_string switching_protocols = bytes "Switching Protocols"
http_status_to_string processing = bytes "Processing"
http_status_to_string ok_status = bytes "OK"
http_status_to_string created = bytes "Created"
http_status_to_string accepted = bytes "Accepted"
http_status_to_string non_authoritative_information = bytes "Non - Authoritative Information"
http_status_to_string no_content = bytes "No Content"
http_status_to_string reset_content = bytes "Reset Content"
http_status_to_string partial_content = bytes "Partial Content"
http_status_to_string multi_status = bytes "Multi - Status"
http_status_to_string already_reported = bytes "Already Reported"
http_status_to_string im_used = bytes "IM Used"
http_status_to_string multiple_choices = bytes "Multiple Choices"
http_status_to_string moved_permanently = bytes "Moved Permanently"
http_status_to_string found = bytes "Found"
http_status_to_string see_other = bytes "See Other"
http_status_to_string not_modified = bytes "Not Modified"
http_status_to_string use_proxy = bytes "Use Proxy"
http_status_to_string temporary_redirect = bytes "Temporary Redirect"
http_status_to_string permanent_redirect = bytes "Permanent Redirect"
http_status_to_string bad_request = bytes "Bad Request"
http_status_to_string unauthorized = bytes "Unauthorized"
http_status_to_string payment_required = bytes "Payment Required"
http_status_to_string forbidden = bytes "Forbidden"
http_status_to_string not_found = bytes "Not Found"
http_status_to_string method_not_allowed = bytes "Method Not Allowed"
http_status_to_string not_acceptable = bytes "Not Acceptable"
http_status_to_string proxy_authentication_required = bytes "Proxy Authentication Required"
http_status_to_string request_timeout = bytes "Request Timeout"
http_status_to_string conflict = bytes "Conflict"
http_status_to_string gone = bytes "Gone"
http_status_to_string length_required = bytes "Length Required"
http_status_to_string precondition_failed = bytes "Precondition Failed"
http_status_to_string payload_too_large = bytes "Payload Too Large"
http_status_to_string uri_too_long = bytes "URI Too Long"
http_status_to_string unsupported_media_type = bytes "Unsupported Media Type"
http_status_to_string range_not_satisfiable = bytes "Range Not Satisfiable"
http_status_to_string expectation_failed = bytes "Expectation Failed"
http_status_to_string misdirected_request = bytes "Misdirected Request"
http_status_to_string unprocessable_entity = bytes "Unprocessable Entity"
http_status_to_string locked = bytes "Locked"
http_status_to_string failed_dependency = bytes "Failed Dependency"
http_status_to_string upgrade_required = bytes "Upgrade Required"
http_status_to_string precondition_required = bytes "Precondition Required"
http_status_to_string too_many_requests = bytes "Too Many Requests"
http_status_to_string request_header_fields_too_large = bytes "Request Header Fields Too Large"
http_status_to_string unavailable_for_legal_reasons = bytes "Unavailable For Legal Reasons"
http_status_to_string internal_server_error = bytes "Internal Server Error"
http_status_to_string not_implemented = bytes "Not Implemented"
http_status_to_string bad_gateway = bytes "Bad Gateway"
http_status_to_string service_unavailable = bytes "Service Unavailable"
http_status_to_string gateway_timeout = bytes "Gateway Timeout"
http_status_to_string http_version_not_supported = bytes "HTTP Version Not Supported"
http_status_to_string variant_also_negotiates = bytes "Variant Also Negotiates"
http_status_to_string insufficient_storage = bytes "Insufficient Storage"
http_status_to_string loop_detected = bytes "Loop Detected"
http_status_to_string not_extended = bytes "Not Extended"
http_status_to_string network_authentication_required = bytes "Network Authentication Required"
