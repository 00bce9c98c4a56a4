-- ===== src/Conf.antt =====
-- CBaseConfParser of src/common/base_conf_parser.cpp: the lines of a configuration file. A text is
-- the list of its characters from the cursor on; the zeros that the parser writes lie behind the
-- cursor, so that they only end the strings that it hands on.
pub mod Keys
pub mod Settings
pub mod Lines
pub mod Files
pub mod Unspaced
mod Tests
use kunlun.Prelude.Run.{Run, ret, fault, out_of_bounds, endless, ◌>>=◌}
use kunlun.Prelude.{
  ℕ, zero, suc, ◌+◌, List, [], ◌∷◌, ◌++◌, Bool, true, false, not, ◌||◌, Option, none, some, length,
  ◌==◌, if◌then◌else◌,
}

-- ' ', '#', '=', '\n', '\r'
abbrev pub space : ℕ
space = 32

abbrev pub hash : ℕ
hash = 35

abbrev pub equals : ℕ
equals = 61

abbrev pub newline : ℕ
newline = 10

abbrev pub carriage_return : ℕ
carriage_return = 13

-- KL_COMMON_CONF_KEY_ERR and KL_COMMON_CONF_VALUE_ERR
abbrev pub key_err : ℕ
key_err = 1

abbrev pub value_err : ℕ
value_err = 2

-- The characters in front of the first one that ends a loop, and the text from there on; a loop that
-- runs past the buffer is a fault.
pub span : (ℕ → Bool) → List ℕ → Run (List ℕ × List ℕ)
span ends [] = fault out_of_bounds
span ends (c ∷ cs) =
    let rest = (do (before, from) ← span ends cs; ret (c ∷ before, from)) in
    if ends c then ret ([], c ∷ cs) else rest

pub trim_left : List ℕ → List ℕ
trim_left [] = []
trim_left (c ∷ cs) = let rest = trim_left cs in if c == space then rest else c ∷ cs

pub trim_right : List ℕ → List ℕ
trim_right [] = []
trim_right (c ∷ cs) = elim (trim_right cs) [
  | [] ↦ if c == space then [] else c ∷ []
  | d ∷ ds ↦ c ∷ d ∷ ds
]

-- format_string on the characters of a region; NULL where all of them are spaces.
pub format_string : List ℕ → Option (List ℕ)
format_string region = elim (trim_right (trim_left region)) [ [] ↦ none | c ∷ cs ↦ some (c ∷ cs) ]

pub ends_with_space : List ℕ → Bool
ends_with_space [] = false
ends_with_space (c ∷ []) = c == space
ends_with_space (c ∷ d ∷ ds) = ends_with_space (d ∷ ds)

pub starts_with_space : List ℕ → Bool
starts_with_space [] = false
starts_with_space (c ∷ cs) = c == space

-- The string at pkey once both regions are formatted. format_string writes a zero behind the key only
-- over a space, and no zero over '=': without that space the string goes on through '=' to the
-- next zero, which is a leading space of the value or the end of the value.
pub key_string : List ℕ → List ℕ → List ℕ → List ℕ → List ℕ
key_string key_region key value_region value =
    if ends_with_space key_region
    then key
    else key ++ equals ∷ (if starts_with_space value_region then [] else value)

-- The cursor behind the value: after "\r" the next character is skipped, whatever it is.
pub skip_return : List ℕ → Run (List ℕ)
skip_return [] = fault out_of_bounds
skip_return (c ∷ cs) =
    if c == carriage_return
    then (elim cs [ [] ↦ fault out_of_bounds | d ∷ ds ↦ ret (d ∷ ds) ])
    else ret (c ∷ cs)

-- *pend == 0
pub at_zero : List ℕ → Bool
at_zero [] = false
at_zero (c ∷ cs) = c == 0

-- The test for a line of spaces, at the first character that is none: the cursor at the end of such a
-- line, or the cursor from which the key is read on. The test of "\r" moves it.
pub data Blank : Type 0 where
  blank : List ℕ → Blank
  filled : List ℕ → List ℕ → Blank

pub is_line_end : ℕ → Bool
is_line_end c = c == newline || c == 0

-- `before` are the characters from the start of the line to the cursor.
pub blank_line : List ℕ → List ℕ → Run Blank
blank_line before [] = fault out_of_bounds
blank_line before (c ∷ cs) =
    if c == carriage_return
    then elim cs [
      | [] ↦ fault out_of_bounds
      | d ∷ ds ↦
          if is_line_end d then ret (blank (d ∷ ds)) else ret (filled (before ++ c ∷ []) (d ∷ ds))
    ]
    else (if is_line_end c then ret (blank (c ∷ cs)) else ret (filled before (c ∷ cs)))

-- p++, to the next line.
pub next_line : List ℕ → List ℕ
next_line [] = []
next_line (c ∷ cs) = cs

-- A configuration of some type, with its virtual set_value.
module _ {C : Type 0} (set_value : List ℕ → List ℕ → C → Run (C × ℕ)) where
  -- What parse_line does: the cursor afterwards, blast_line, the configuration and the result. A cursor
  -- of a line with an error is not used.
  pub record Line : Type 0 where
    pub cursor : List ℕ
    pub last : Bool
    pub conf : C
    pub code : ℕ

  pub failed_line : C → ℕ → Line
  failed_line conf code = record { cursor = []; last = false; conf = conf; code = code }

  -- The part of parse_line behind the second call of format_string, which has given NULL or a value.
  pub take_value : List ℕ → List ℕ → List ℕ → List ℕ → C → Option (List ℕ) → Run Line
  take_value key_region key region end conf none = ret (failed_line conf value_err)
  take_value key_region key region end conf (some value) = do
    cursor ← skip_return end
    (conf', code) ← set_value (key_string key_region key region value) value conf
    ret (record { cursor = cursor; last = at_zero end; conf = conf'; code = code })

  -- The part of parse_line behind '='.
  pub parse_value : List ℕ → List ℕ → List ℕ → C → Run Line
  parse_value key_region key text conf = do
    (region, end) ← span (λ c. c == carriage_return || is_line_end c) text
    elim region [
      | [] ↦ ret (failed_line conf value_err)
      | r ∷ rs ↦ take_value key_region key (r ∷ rs) end conf (format_string (r ∷ rs))
    ]

  -- The part of parse_line behind the test for a line of spaces.
  pub parse_key : List ℕ → List ℕ → C → Run Line
  parse_key before text conf = do
    (more, end) ← span (λ c. c == equals || is_line_end c) text
    let region = before ++ more
    elim end [
      | [] ↦ fault out_of_bounds
      | c ∷ cs ↦
          if c == equals
          then (elim (format_string region) [
            | none ↦ ret (failed_line conf key_err)
            | some key ↦ parse_value region key cs conf
          ])
          else ret (failed_line conf key_err)
    ]

  pub skipped_line : List ℕ → C → Line
  skipped_line cursor conf = record {
    cursor = cursor;
    last = at_zero cursor;
    conf = conf;
    code = 0;
  }

  pub parse_line : List ℕ → C → Run Line
  parse_line [] conf = fault out_of_bounds
  parse_line (c ∷ cs) conf =
      if c == hash
      then (do (comment, end) ← span is_line_end (c ∷ cs); ret (skipped_line end conf))
      else (do
        (spaces, text) ← span (λ d. if d == space then false else true) (c ∷ cs)
        found ← blank_line spaces text
        elim found [
          | blank cursor ↦ ret (skipped_line cursor conf)
          | filled before rest ↦ parse_key before rest conf
        ])

  -- The rounds of the loop of parse_conf, on fuel; `code` is the last result, which is not set before the
  -- first line.
  pub parse_lines : ℕ → ℕ → List ℕ → C → Run (C × ℕ)
  parse_lines fuel code [] conf = fault out_of_bounds
  parse_lines zero code (c ∷ cs) conf = fault endless
  parse_lines (suc fuel) code (c ∷ cs) conf = if c == 0 then ret (conf, code) else (do
    line ← parse_line (c ∷ cs) conf
    let rest = parse_lines fuel line.code (next_line line.cursor) line.conf
    if not (line.code == 0) || line.last then ret (line.conf, line.code) else rest)

  -- parse_conf on a buffer behind init_conf; `unset` is what lies in the memory of ret. Every round takes
  -- a character, so the length of the buffer is fuel enough.
  pub parse_conf : ℕ → List ℕ → C → Run (C × ℕ)
  parse_conf unset buffer conf = parse_lines (length buffer) unset buffer conf
