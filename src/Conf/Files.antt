-- ===== src/Conf/Files.antt =====
-- Whole configuration files for CBaseConfParser::parse_conf of src/common/base_conf_parser.cpp.
use kunlun.Prelude.Run.{Run, ret, ◌>>=◌, Run-cases}
use kunlun.Conf.{space, equals, newline, carriage_return, next_line, parse_lines, parse_conf}
use kunlun.Conf.Lines.{IsKeyChar, IsValueChar, parse_line-spaced}
use kunlun.Prelude.{
  ℕ, zero, suc, ◌<◌, ◌≡◌, refl, List, [], ◌∷◌, ◌++◌, All, length, length-append, ◌==◌,
  if◌then◌else◌, Bool-cases, inl, inr, arith, false,
}

pub record Setting : Type 0 where
  pub key : List ℕ
  pub value : List ℕ

-- A word is not empty and holds characters of a kind.
abbrev pub IsWord : (ℕ → Type 0) → List ℕ → Type 0
IsWord P [] = ⊥
IsWord P (c ∷ cs) = P c × All P cs

abbrev pub IsSetting : Setting → Type 0
IsSetting s = IsWord IsKeyChar s.key × IsWord IsValueChar s.value

-- The text of a configuration file: lines `key = value` that end in "\r\n", a zero, and what lies behind.
abbrev pub print_conf : List Setting → List ℕ → List ℕ
print_conf [] tail = 0 ∷ tail
print_conf (s ∷ ss) tail =
    s.key ++ space ∷ equals ∷ space ∷ (s.value ++ carriage_return ∷ newline ∷ print_conf ss tail)

module _ {C : Type 0} (set_value : List ℕ → List ℕ → C → Run (C × ℕ)) where
  -- The settings made one after the other, until one is refused.
  abbrev pub set_all : ℕ → List Setting → C → Run (C × ℕ)
  set_all code [] conf = ret (conf, code)
  set_all code (s ∷ ss) conf = do
    (conf', code') ← set_value s.key s.value conf
    let rest = set_all code' ss conf'
    if code' == 0 then rest else ret (conf', code')

  -- A round for a line with a setting, before lines that are read as the settings ss.
  parse_lines-setting :
      (fuel code : ℕ) (key value text : List ℕ) (ss : List Setting) (conf : C)
      → IsWord IsKeyChar key
      → IsWord IsValueChar value
      → ((code' : ℕ) (conf' : C)
          → parse_lines set_value fuel code' text conf' ≡ set_all code' ss conf')
      → parse_lines set_value
          (suc fuel)
          code
          (key ++ space ∷ equals ∷ space ∷ (value ++ carriage_return ∷ newline ∷ text))
          conf
        ≡ set_all code (record { key = key; value = value } ∷ ss) conf
  unfolding parse_lines next_line
  parse_lines-setting fuel code [] value text ss conf hk hv others = elim hk [ ]
  parse_lines-setting fuel code (k ∷ ks) [] text ss conf hk hv others = elim hv [ ]
  parse_lines-setting fuel code (k ∷ ks) (v ∷ vs) text ss conf hk hv others =
      let line = parse_line-spaced set_value k ks v vs text conf hk hv in
      let first : (k == 0) ≡ false = (let n = hk.0.in_value.no_zero in ground arith) in
      elim (Run-cases (set_value (k ∷ ks) (v ∷ vs) conf)) [
        | inr (x, e) ↦ rw (parse_lines, first, line, e) refl
        | inl ((conf', code'), e) ↦ elim (Bool-cases (code' == 0)) [
          | inl t ↦ rw (parse_lines, first, line, e, t) (others code' conf')
          | inr t ↦ rw (parse_lines, first, line, e, t) refl
        ]
      ]

  parse_lines-print_conf :
      (fuel code : ℕ) (ss : List Setting) (tail : List ℕ) (conf : C)
      → All IsSetting ss
      → length ss < fuel
      → parse_lines set_value fuel code (print_conf ss tail) conf ≡ set_all code ss conf
  unfolding parse_lines
  parse_lines-print_conf zero code ss tail conf ok h = absurd (omega arith)
  parse_lines-print_conf (suc fuel) code [] tail conf ok h = refl
  parse_lines-print_conf (suc fuel) code (s ∷ ss) tail conf ((hk, hv), oks) h =
      parse_lines-setting fuel code s.key s.value (print_conf ss tail) ss conf hk hv
        (λ code' conf'. parse_lines-print_conf fuel code' ss tail conf' oks (omega arith))

  settings_fit : (ss : List Setting) (tail : List ℕ) → length ss < length (print_conf ss tail)
  settings_fit [] tail = omega arith
  settings_fit (s ∷ ss) tail =
      let text = carriage_return ∷ newline ∷ print_conf ss tail in
      omega (
        arith,
        settings_fit ss tail,
        length-append s.value text,
        length-append s.key (space ∷ equals ∷ space ∷ (s.value ++ text)),
      )

  -- A configuration file of lines `key = value` that end in "\r\n", whose words hold no space, is parsed
  -- to exactly its settings, made in their order, until one is refused or runs into a fault. The buffer
  -- has to hold a zero behind the last line.
  pub parse_conf-print_conf :
      (unset : ℕ) (ss : List Setting) (tail : List ℕ) (conf : C)
      → All IsSetting ss
      → parse_conf set_value unset (print_conf ss tail) conf ≡ set_all unset ss conf
  unfolding parse_conf
  parse_conf-print_conf unset ss tail conf ok =
      parse_lines-print_conf (length (print_conf ss tail)) unset ss tail conf ok
        (settings_fit ss tail)
