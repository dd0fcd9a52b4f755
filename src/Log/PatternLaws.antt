-- ===== src/Log/PatternLaws.antt =====
-- src/log.cc: a pattern is parsed into the texts and the tags that it was written from.
use tiger.Base.{ℕ, ◌+◌, ◌*◌, ◌/◌, ◌%◌, ◌<◌, true, false, List, [], ◌∷◌, ◌++◌}
use tiger.Base.{
  ◌==◌, ==_iff, if◌then◌else◌, length, length-append, All, ◌≡◌, refl, ap, sym, ◌∙◌, arith,
  Bool-cases, inl, inr,
}
use mathlib.Core.List.{append-nil, append_assoc}
use tiger.Http.Bytes.{bytes}
use tiger.Log.Pattern.{
  isalpha, tag, scan_format, scan_tag, Part, item, flush, starts_percent, parse_loop, FormatItem,
  LogEvent, format, format_item, date_time_format_item, string_format_item, message_format_item,
  level_format_item, logger_name_format_item, thread_id_format_item, new_line_format_item,
  file_name_format_item, line_format_item, tab_format_item, co_id_format_item,
  thread_name_format_item,
}
use tiger.Log.Level.{Level}

-- A piece of a pattern as it is meant.
pub data Piece : Type 0 where
  plain : List ℕ → Piece
  field : List ℕ → List ℕ → Piece

-- `%%` stands for `%`.
unfoldable pub escaped : List ℕ → List ℕ
escaped [] = []
escaped (c ∷ cs) = let rest = escaped cs in if c == 37 then 37 ∷ 37 ∷ rest else c ∷ rest

unfoldable pub written : List Piece → List ℕ
unfolding escaped
written [] = []
written (plain str ∷ ps) = escaped str ++ written ps
written (field str fmt ∷ ps) = 37 ∷ (str ++ 123 ∷ (fmt ++ 125 ∷ written ps))

-- The pieces with neighbouring texts joined, behind the text `nstr`.
unfoldable pub parts_of : List ℕ → List Piece → List Part
unfolding flush
parts_of nstr [] = flush nstr []
parts_of nstr (plain str ∷ ps) = parts_of (nstr ++ str) ps
parts_of nstr (field str fmt ∷ ps) = flush nstr (item str fmt ∷ parts_of [] ps)

-- The tags have letters only, and their formats no `}`.
abbrev pub IsField : Piece → Type 0
IsField (plain str) = Unit {0}
IsField (field str fmt) = All (λ c. isalpha c ≡ true) str × All (λ c. (c == 125) ≡ false) fmt

scan_format_lem :
    (str fmt rest acc : List ℕ)
    → All (λ c. (c == 125) ≡ false) fmt
    → scan_format str (fmt ++ 125 ∷ rest) acc
      ≡ tag str (acc ++ fmt) (length str + length (acc ++ fmt) + 2)
unfolding scan_format
scan_format_lem str [] rest acc h =
    ap (λ f. tag str f (length str + length f + 2)) (sym (append-nil acc))
scan_format_lem str (c ∷ fmt) rest acc h =
    rw (h.0, scan_format)
      (scan_format_lem str fmt rest (acc ++ c ∷ []) h.1
        ∙ ap (λ f. tag str f (length str + length f + 2)) (append_assoc acc (c ∷ []) fmt))

not_brace : (c : ℕ) → isalpha c ≡ true → (c == 123) ≡ false
unfolding isalpha
not_brace c h = ground arith

not_percent : (c : ℕ) → isalpha c ≡ true → (c == 37) ≡ false
unfolding isalpha
not_percent c h = ground arith

scan_tag_lem :
    (str rest seen : List ℕ)
    → All (λ c. isalpha c ≡ true) str
    → scan_tag (str ++ 123 ∷ rest) seen ≡ scan_format (seen ++ str) rest []
unfolding scan_tag
scan_tag_lem [] rest seen h = ap (λ s. scan_format s rest []) (sym (append-nil seen))
scan_tag_lem (c ∷ str) rest seen h =
    rw (h.0, not_brace c h.0, scan_tag)
      (scan_tag_lem str rest (seen ++ c ∷ []) h.1
        ∙ ap (λ s. scan_format s rest []) (append_assoc seen (c ∷ []) str))

skip_lem : (xs ys nstr : List ℕ) → parse_loop (length xs) (xs ++ ys) nstr ≡ parse_loop 0 ys nstr
unfolding parse_loop
skip_lem [] ys nstr = refl
skip_lem (x ∷ xs) ys nstr = skip_lem xs ys nstr

escaped_lem :
    (str rest nstr : List ℕ)
    → parse_loop 0 (escaped str ++ rest) nstr ≡ parse_loop 0 rest (nstr ++ str)
unfolding parse_loop escaped starts_percent
escaped_lem [] rest nstr = ap (parse_loop 0 rest) (sym (append-nil nstr))
escaped_lem (c ∷ str) rest nstr = elim (Bool-cases (c == 37)) [
  | inl e ↦
      rw (e, escaped)
        (escaped_lem str rest (nstr ++ 37 ∷ [])
          ∙ ap (parse_loop 0 rest) (
              append_assoc nstr (37 ∷ []) str
              ∙ ap (λ b. nstr ++ b ∷ str) {x = 37} {y = c} (sym ((==_iff c 37).0 e))))
  | inr e ↦
      rw (e, escaped)
        (rw (e, parse_loop)
          (escaped_lem str rest (nstr ++ c ∷ [])
            ∙ ap (parse_loop 0 rest) (append_assoc nstr (c ∷ []) str)))
]

starts_percent_lem :
    (str rest : List ℕ)
    → All (λ c. isalpha c ≡ true) str
    → starts_percent (str ++ 123 ∷ rest) ≡ false
unfolding starts_percent
starts_percent_lem [] rest h = refl
starts_percent_lem (c ∷ str) rest h = not_percent c h.0

-- The bytes of a field behind its `%`.
field_bytes :
    (str fmt rest : List ℕ)
    → str ++ 123 ∷ (fmt ++ 125 ∷ rest) ≡ (str ++ 123 ∷ (fmt ++ 125 ∷ [])) ++ rest
field_bytes str fmt rest = sym (
    append_assoc str (123 ∷ (fmt ++ 125 ∷ [])) rest
    ∙ ap (λ l. str ++ 123 ∷ l) (append_assoc fmt (125 ∷ []) rest))

length-field_bytes :
    (str fmt : List ℕ) → length str + length fmt + 2 ≡ length (str ++ 123 ∷ (fmt ++ 125 ∷ []))
length-field_bytes str fmt =
    omega (arith, length-append str (123 ∷ (fmt ++ 125 ∷ [])), length-append fmt (125 ∷ []))

scan_field :
    (str fmt rest : List ℕ)
    → IsField (field str fmt)
    → scan_tag (str ++ 123 ∷ (fmt ++ 125 ∷ rest)) [] ≡ tag str fmt (length str + length fmt + 2)
scan_field str fmt rest h =
    scan_tag_lem str (fmt ++ 125 ∷ rest) [] h.0 ∙ scan_format_lem str fmt rest [] h.1

field_lem :
    (str fmt rest nstr : List ℕ)
    → IsField (field str fmt)
    → parse_loop 0 (37 ∷ (str ++ 123 ∷ (fmt ++ 125 ∷ rest))) nstr
      ≡ flush nstr (item str fmt ∷ parse_loop 0 rest [])
unfolding parse_loop
field_lem str fmt rest nstr h =
    rw (starts_percent_lem str (fmt ++ 125 ∷ rest) h.0, scan_field str fmt rest h, parse_loop)
      (ap (λ l. flush nstr (item str fmt ∷ l))
        (ap (λ l. parse_loop (length str + length fmt + 2) l []) (field_bytes str fmt rest)
          ∙ ap (λ k. parse_loop k ((str ++ 123 ∷ (fmt ++ 125 ∷ [])) ++ rest) [])
              (length-field_bytes str fmt)
          ∙ skip_lem (str ++ 123 ∷ (fmt ++ 125 ∷ [])) rest []))

-- A pattern that is written from texts, with `%%` for `%`, and from tags of letters, each followed by
-- its format in braces without a `}`, is parsed into just these tags with their formats and these
-- texts, neighbouring ones joined, in their order.
pub parse_loop-written :
    (ps : List Piece) (nstr : List ℕ)
    → All IsField ps
    → parse_loop 0 (written ps) nstr ≡ parts_of nstr ps
unfolding written parts_of parse_loop
parse_loop-written [] nstr h = refl
parse_loop-written (plain str ∷ ps) nstr h =
    escaped_lem str (written ps) nstr ∙ parse_loop-written ps (nstr ++ str) h.1
parse_loop-written (field str fmt ∷ ps) nstr h =
    field_lem str fmt (written ps) nstr h.0
    ∙ ap (λ l. flush nstr (item str fmt ∷ l)) (parse_loop-written ps [] h.1)

module _ (number three_digits : ℕ → List ℕ) (time_text : List ℕ → ℕ → List ℕ) where
  item-milliseconds :
      (i : FormatItem) (name : List ℕ) (level : Level) (event : LogEvent) (s ms : ℕ)
      → ms < 1000
      → format_item number three_digits time_text name level
          (record event { time = 1000 * s + ms })
          i
        ≡ format_item number three_digits time_text name level (record event { time = 1000 * s }) i
  unfolding format_item
  item-milliseconds (date_time_format_item fmt) name level event s ms h =
      ap (λ t. time_text fmt t ++ bytes "." ++ three_digits (t % 1000)) {x = (1000 * s + ms) / 1000}
        {y = 1000 * s / 1000} (omega arith)
  item-milliseconds (string_format_item str) name level event s ms h = refl
  item-milliseconds message_format_item name level event s ms h = refl
  item-milliseconds level_format_item name level event s ms h = refl
  item-milliseconds logger_name_format_item name level event s ms h = refl
  item-milliseconds thread_id_format_item name level event s ms h = refl
  item-milliseconds new_line_format_item name level event s ms h = refl
  item-milliseconds file_name_format_item name level event s ms h = refl
  item-milliseconds line_format_item name level event s ms h = refl
  item-milliseconds tab_format_item name level event s ms h = refl
  item-milliseconds co_id_format_item name level event s ms h = refl
  item-milliseconds thread_name_format_item name level event s ms h = refl

  -- The line that any format items make of an event does not depend on the milliseconds of its time,
  -- though they are what a time item means to write behind the dot.
  pub format-milliseconds :
      (items : List FormatItem) (name : List ℕ) (level : Level) (event : LogEvent) (s ms : ℕ)
      → ms < 1000
      → format number three_digits time_text items name level
          (record event { time = 1000 * s + ms })
        ≡ format number three_digits time_text items name level (record event { time = 1000 * s })
  unfolding format
  format-milliseconds [] name level event s ms h = refl
  format-milliseconds (i ∷ items) name level event s ms h =
      ap
        (λ l.
          l
          ++ format number three_digits time_text items name level
              (record event { time = 1000 * s + ms }))
        (item-milliseconds i name level event s ms h)
      ∙ ap
          (λ l.
            format_item number three_digits time_text name level (record event { time = 1000 * s })
              i
            ++ l)
          (format-milliseconds items name level event s ms h)
