-- ===== src/Log/Pattern.antt =====
-- src/log.cc: LogFormatter, with the parsing of its pattern. The loops over the indices i and n are
-- recursion on what is left of the pattern. A number's text and strftime are parameters.
use tiger.Base.{
  ℕ, zero, suc, ◌+◌, ◌/◌, ◌%◌, Bool, true, false, not, ◌&&◌, ◌||◌, List, [], ◌∷◌, ◌++◌,
}
use tiger.Base.{Option, none, some, leb, ◌==◌, if◌then◌else◌, length}
use tiger.Http.Bytes.{bytes, strcmp}
use tiger.Log.Level.{Level, level_to_string}

-- isalpha.
unfoldable pub isalpha : ℕ → Bool
isalpha c = leb 65 c && leb c 90 || leb 97 c && leb c 122

-- What the loop over n finds behind a `%`: the tag and its format, and how many bytes it has passed; or
-- a format that is not closed.
pub data Scan : Type 0 where
  tag : List ℕ → List ℕ → ℕ → Scan
  unclosed : Scan

-- The loop with fmt_status 1.
unfoldable pub scan_format : List ℕ → List ℕ → List ℕ → Scan
scan_format str [] fmt = unclosed
scan_format str (c ∷ cs) fmt =
    let later = scan_format str cs (fmt ++ c ∷ []) in
    if c == 125 then tag str fmt (length str + length fmt + 2) else later

-- The loop with fmt_status 0; `seen` are the bytes behind the `%`.
unfoldable pub scan_tag : List ℕ → List ℕ → Scan
unfolding isalpha scan_format
scan_tag [] seen = tag seen [] (length seen)
scan_tag (c ∷ cs) seen =
    let later = scan_tag cs (seen ++ c ∷ []) in
    if not (isalpha c) && not (c == 123) && not (c == 125)
    then tag seen [] (length seen)
    else if c == 123
    then scan_format seen cs []
    else later

-- An element of vec: text, or a tag with its format.
pub data Part : Type 0 where
  text : List ℕ → Part
  item : List ℕ → List ℕ → Part

unfoldable pub flush : List ℕ → List Part → List Part
flush nstr parts = if length nstr == 0 then parts else text nstr ∷ parts

unfoldable pub starts_percent : List ℕ → Bool
starts_percent [] = false
starts_percent (c ∷ cs) = c == 37

-- The loop over i, which first skips the bytes that a tag has passed.
unfoldable pub parse_loop : ℕ → List ℕ → List ℕ → List Part
unfolding flush starts_percent scan_tag
parse_loop skip [] nstr = flush nstr []
parse_loop (suc skip) (c ∷ cs) nstr = parse_loop skip cs nstr
parse_loop zero (c ∷ cs) nstr = elim (c == 37) [
  | false ↦ parse_loop zero cs (nstr ++ c ∷ [])
  | true ↦ elim (starts_percent cs) [
    | true ↦ parse_loop 1 cs (nstr ++ 37 ∷ [])
    | false ↦ elim (scan_tag cs []) [
      | tag str fmt passed ↦ flush nstr (item str fmt ∷ parse_loop passed cs [])
      | unclosed ↦ text (bytes "<<pattern_error>>") ∷ parse_loop zero cs nstr
    ]
  ]
]

-- The classes of format items; a string item and a time have their text.
pub data FormatItem : Type 0 where
  string_format_item : List ℕ → FormatItem
  message_format_item level_format_item logger_name_format_item : FormatItem
  thread_id_format_item new_line_format_item file_name_format_item : FormatItem
  line_format_item tab_format_item co_id_format_item thread_name_format_item : FormatItem
  date_time_format_item : List ℕ → FormatItem

-- s_format_items, with what `find` gives.
unfoldable pub item_of : List ℕ → List ℕ → Option FormatItem
item_of str fmt =
    if strcmp str (bytes "m")
    then some message_format_item
    else if strcmp str (bytes "p")
    then some level_format_item
    else if strcmp str (bytes "c")
    then some logger_name_format_item
    else if strcmp str (bytes "t")
    then some thread_id_format_item
    else if strcmp str (bytes "n")
    then some new_line_format_item
    else if strcmp str (bytes "d")
    then some (date_time_format_item fmt)
    else if strcmp str (bytes "f")
    then some file_name_format_item
    else if strcmp str (bytes "l")
    then some line_format_item
    else if strcmp str (bytes "T")
    then some tab_format_item
    else if strcmp str (bytes "F")
    then some co_id_format_item
    else if strcmp str (bytes "N")
    then some thread_name_format_item
    else none

-- The loop over vec: a tag that is not known is left out.
unfoldable pub items_of : List Part → List FormatItem
unfolding item_of
items_of [] = []
items_of (text str ∷ parts) = string_format_item str ∷ items_of parts
items_of (item str fmt ∷ parts) =
    let rest = items_of parts in elim (item_of str fmt) [ none ↦ rest | some i ↦ i ∷ rest ]

-- LogFormatter::init.
unfoldable pub init : List ℕ → List FormatItem
unfolding parse_loop items_of
init pattern = items_of (parse_loop 0 pattern [])

-- LogFormatter(pattern).
unfoldable pub new_formatter : List ℕ → List FormatItem
unfolding init
new_formatter pattern =
    if length pattern == 0
    then init (bytes "%d{%Y-%m-%d %H:%M:%S} %t %N %F [%p] [%c] %f:%l %m%n")
    else init pattern

pub record LogEvent : Type 0 where
  pub level : Level
  pub file : List ℕ
  pub line : ℕ
  pub thread_id : ℕ
  pub co_id : ℕ
  pub time : ℕ
  pub thread_name : List ℕ
  pub ss : List ℕ

-- `number` is the decimal text of a number, `three_digits` the same with leading zeros, and `time_text`
-- is strftime of the local time.
module _ (number three_digits : ℕ → List ℕ) (time_text : List ℕ → ℕ → List ℕ) where
  -- The `format` of every class of items, for a logger with this name.
  unfoldable pub format_item : List ℕ → Level → LogEvent → FormatItem → List ℕ
  unfolding level_to_string
  format_item name level event (string_format_item str) = str
  format_item name level event message_format_item = event.ss
  format_item name level event level_format_item = level_to_string level
  format_item name level event logger_name_format_item = name
  format_item name level event thread_id_format_item = number event.thread_id
  format_item name level event new_line_format_item = bytes "\n"
  format_item name level event file_name_format_item = event.file
  format_item name level event line_format_item = number event.line
  format_item name level event tab_format_item = bytes "\t"
  format_item name level event co_id_format_item = number event.co_id
  format_item name level event thread_name_format_item = event.thread_name
  format_item name level event (date_time_format_item fmt) =
      let time = event.time / 1000 in time_text fmt time ++ bytes "." ++ three_digits (time % 1000)

  -- LogFormatter::format, both of them.
  unfoldable pub format : List FormatItem → List ℕ → Level → LogEvent → List ℕ
  unfolding format_item
  format [] name level event = []
  format (i ∷ items) name level event =
      format_item name level event i ++ format items name level event
