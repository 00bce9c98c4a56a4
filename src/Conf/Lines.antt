-- ===== src/Conf/Lines.antt =====
-- What CBaseConfParser::parse_line of src/common/base_conf_parser.cpp makes of a line `key = value`.
use kunlun.Prelude.Run.{Run, ret, ◌>>=◌}
use kunlun.Conf.{
  space, hash, equals, newline, carriage_return, span, trim_left, trim_right, format_string,
  ends_with_space, starts_with_space, key_string, skip_return, at_zero, is_line_end, blank_line,
  Line, take_value, parse_value, parse_key, parse_line,
}
use kunlun.Prelude.{
  ℕ, ◌≡◌, ◌≢◌, ◌∙◌, ap, refl, sym, List, [], ◌∷◌, ◌++◌, Bool, true, false, ◌||◌, some, ◌==◌, All,
  All-append, arith, append_assoc,
}

-- A character of a value, and one of a key.
pub record IsValueChar (c : ℕ) : Type 0 where
  pub no_space : c ≢ space
  pub no_newline : c ≢ newline
  pub no_return : c ≢ carriage_return
  pub no_zero : c ≢ 0

pub record IsKeyChar (c : ℕ) : Type 0 where
  pub in_value : IsValueChar c
  pub no_equals : c ≢ equals
  pub no_hash : c ≢ hash

span-append :
    (ends : ℕ → Bool) (xs : List ℕ) (c : ℕ) (rest : List ℕ)
    → All (λ x. ends x ≡ false) xs
    → ends c ≡ true
    → span ends (xs ++ c ∷ rest) ≡ ret (xs, c ∷ rest)
unfolding span
span-append ends [] c rest h e = rw e refl
span-append ends (x ∷ xs) c rest (h, hs) e = rw (h, span-append ends xs c rest hs e) refl

module _ (P Q : ℕ → Type 0) (f : (c : ℕ) → P c → Q c) where
  All-weaken : (xs : List ℕ) → All P xs → All Q xs
  All-weaken [] h = tt
  All-weaken (x ∷ xs) (h, hs) = (f x h, All-weaken xs hs)

trim_left-char : (c : ℕ) (cs : List ℕ) → c ≢ space → trim_left (c ∷ cs) ≡ c ∷ cs
unfolding trim_left
trim_left-char c cs h = ground arith

trim_right-word : (c : ℕ) (cs : List ℕ) → All IsValueChar (c ∷ cs) → trim_right (c ∷ cs) ≡ c ∷ cs
unfolding trim_right
trim_right-word c [] (h, hs) = let ne = h.no_space in ground arith
trim_right-word c (d ∷ ds) (h, hs) = rw (trim_right-word d ds hs) refl

trim_right-space :
    (c : ℕ) (cs : List ℕ) → All IsValueChar (c ∷ cs) → trim_right (c ∷ cs ++ space ∷ []) ≡ c ∷ cs
unfolding trim_right
trim_right-space c [] (h, hs) = let ne = h.no_space in ground arith
trim_right-space c (d ∷ ds) (h, hs) = rw (trim_right-space d ds hs) refl

-- A word, alone, behind a space or in front of one, is formatted to itself.
format_string-word :
    (c : ℕ) (cs : List ℕ) → All IsValueChar (c ∷ cs) → format_string (c ∷ cs) ≡ some (c ∷ cs)
unfolding format_string
format_string-word c cs h =
    rw (format_string, trim_left-char c cs (h.0.no_space), trim_right-word c cs h) refl

format_string-behind :
    (c : ℕ) (cs : List ℕ)
    → All IsValueChar (c ∷ cs)
    → format_string (space ∷ c ∷ cs) ≡ some (c ∷ cs)
unfolding format_string trim_left
format_string-behind c cs h =
    rw (format_string, trim_left-char c cs (h.0.no_space), trim_right-word c cs h) refl

format_string-before :
    (c : ℕ) (cs : List ℕ)
    → All IsValueChar (c ∷ cs)
    → format_string (c ∷ cs ++ space ∷ []) ≡ some (c ∷ cs)
unfolding format_string
format_string-before c cs h =
    rw (format_string, trim_left-char c (cs ++ space ∷ []) (h.0.no_space), trim_right-space c cs h)
      refl

ends_with_space-before : (c : ℕ) (cs : List ℕ) → ends_with_space (c ∷ cs ++ space ∷ []) ≡ true
unfolding ends_with_space
ends_with_space-before c [] = refl
ends_with_space-before c (d ∷ ds) = ends_with_space-before d ds

ends_with_space-word :
    (c : ℕ) (cs : List ℕ) → All IsValueChar (c ∷ cs) → ends_with_space (c ∷ cs) ≡ false
unfolding ends_with_space
ends_with_space-word c [] (h, hs) = let ne = h.no_space in ground arith
ends_with_space-word c (d ∷ ds) (h, hs) = ends_with_space-word d ds hs

-- The test that ends a key, and the one that ends a value.
abbrev ends_key : ℕ → Bool
ends_key c = c == equals || is_line_end c

abbrev ends_value : ℕ → Bool
ends_value c = c == carriage_return || is_line_end c

ends_value-char : (c : ℕ) → IsValueChar c → ends_value c ≡ false
unfolding is_line_end
ends_value-char c h =
    let a = h.no_newline in let b = h.no_return in let d = h.no_zero in ground arith

ends_key-char : (c : ℕ) → IsKeyChar c → ends_key c ≡ false
unfolding is_line_end
ends_key-char c h =
    let a = h.no_equals in
    let b = h.in_value.no_newline in let d = h.in_value.no_zero in ground arith

module _ {C : Type 0} (set_value : List ℕ → List ℕ → C → Run (C × ℕ)) where
  -- What a line with a setting does.
  abbrev pub setting : List ℕ → List ℕ → List ℕ → C → Run (Line set_value)
  setting key value cursor conf = do
    (conf', code) ← set_value key value conf
    ret (record { cursor = cursor; last = false; conf = conf'; code = code })

  parse_value-regions :
      (region key : List ℕ) (r : ℕ) (rs value tail cursor : List ℕ) (e : ℕ) (conf : C)
      → All (λ c. ends_value c ≡ false) (r ∷ rs)
      → format_string (r ∷ rs) ≡ some value
      → ends_value e ≡ true
      → e ≢ 0
      → skip_return (e ∷ tail) ≡ ret cursor
      → parse_value set_value region key (r ∷ rs ++ e ∷ tail) conf
        ≡ setting (key_string region key (r ∷ rs) value) value cursor conf
  unfolding parse_value take_value at_zero
  parse_value-regions region key r rs value tail cursor e conf plain fmt stop ne skip =
      let more : at_zero (e ∷ tail) ≡ false = ground arith in
      rw (parse_value, span-append ends_value (r ∷ rs) e tail plain stop)
        (ap (take_value set_value region key (r ∷ rs) (e ∷ tail) conf) fmt
          ∙ rw (take_value, skip, more) refl)

  parse_key-regions :
      (region key text : List ℕ) (conf : C)
      → All (λ c. ends_key c ≡ false) region
      → format_string region ≡ some key
      → parse_key set_value [] (region ++ equals ∷ text) conf
        ≡ parse_value set_value region key text conf
  unfolding parse_key
  parse_key-regions region key text conf plain fmt =
      rw (parse_key, span-append ends_key region equals text plain refl, fmt) refl

  -- A line that begins with a character of a key is read from its start on.
  parse_line-key :
      (k : ℕ) (text : List ℕ) (conf : C)
      → IsKeyChar k
      → parse_line set_value (k ∷ text) conf ≡ parse_key set_value [] (k ∷ text) conf
  unfolding parse_line span blank_line is_line_end
  parse_line-key k text conf h =
      let a : (k == hash) ≡ false = (let n = h.no_hash in ground arith) in
      let b : (k == space) ≡ false = (let n = h.in_value.no_space in ground arith) in
      let c : (k == carriage_return) ≡ false = (let n = h.in_value.no_return in ground arith) in
      let d : (k == newline) ≡ false = (let n = h.in_value.no_newline in ground arith) in
      let e : (k == 0) ≡ false = (let n = h.in_value.no_zero in ground arith) in
      rw (parse_line, a, b, c, d, e) refl

  -- A line whose regions format to a key and a value, with the character e that ends the value.
  pub parse_line-regions :
      (k : ℕ) (ks key : List ℕ) (r : ℕ) (rs value tail cursor : List ℕ) (e : ℕ) (conf : C)
      → IsKeyChar k
      → All (λ c. ends_key c ≡ false) (k ∷ ks)
      → format_string (k ∷ ks) ≡ some key
      → All (λ c. ends_value c ≡ false) (r ∷ rs)
      → format_string (r ∷ rs) ≡ some value
      → ends_value e ≡ true
      → e ≢ 0
      → skip_return (e ∷ tail) ≡ ret cursor
      → parse_line set_value (k ∷ ks ++ equals ∷ (r ∷ rs ++ e ∷ tail)) conf
        ≡ setting (key_string (k ∷ ks) key (r ∷ rs) value) value cursor conf
  parse_line-regions k ks key r rs value tail cursor e conf hk plain fmt plain' fmt' stop ne skip =
      parse_line-key k (ks ++ equals ∷ (r ∷ rs ++ e ∷ tail)) conf hk
      ∙ parse_key-regions (k ∷ ks) key (r ∷ rs ++ e ∷ tail) conf plain fmt
      ∙ parse_value-regions (k ∷ ks) key r rs value tail cursor e conf plain' fmt' stop ne skip

  -- The line `key = value` that ends in "\r\n", as the configuration files of the repository write it,
  -- sets that key to that value, and the cursor is at its end; the words hold no space.
  pub parse_line-spaced :
      (k : ℕ) (ks : List ℕ) (v : ℕ) (vs rest : List ℕ) (conf : C)
      → All IsKeyChar (k ∷ ks)
      → All IsValueChar (v ∷ vs)
      → parse_line set_value
          (k ∷ ks ++ space ∷ equals ∷ space ∷ (v ∷ vs ++ carriage_return ∷ newline ∷ rest))
          conf
        ≡ setting (k ∷ ks) (v ∷ vs) (newline ∷ rest) conf
  unfolding key_string starts_with_space skip_return is_line_end
  parse_line-spaced k ks v vs rest conf hk hv =
      let hv' = All-weaken IsKeyChar IsValueChar (λ c h. h.in_value) (k ∷ ks) hk in
      let region = k ∷ ks ++ space ∷ [] in
      let tail = carriage_return ∷ newline ∷ rest in
      let plain =
        All-append (λ c. ends_key c ≡ false) (k ∷ ks) (space ∷ [])
          (All-weaken IsKeyChar (λ c. ends_key c ≡ false) ends_key-char (k ∷ ks) hk) (refl, tt) in
      let plain' = All-weaken IsValueChar (λ c. ends_value c ≡ false) ends_value-char (v ∷ vs) hv in
      let whole =
        parse_line-regions k (ks ++ space ∷ []) (k ∷ ks) space (v ∷ vs) (v ∷ vs) (newline ∷ rest)
          (newline ∷ rest) carriage_return conf hk.0 plain (format_string-before k ks hv')
          (refl, plain') (format_string-behind v vs hv) refl (λ e. cc e) refl in
      let named : key_string region (k ∷ ks) (space ∷ v ∷ vs) (v ∷ vs) ≡ k ∷ ks =
        rw (key_string, ends_with_space-before k ks) refl in
      ap (λ (text : List ℕ). parse_line set_value text conf)
        (sym (append_assoc (k ∷ ks) (space ∷ []) (equals ∷ space ∷ (v ∷ vs ++ tail))))
      ∙ whole
      ∙ ap (λ (key : List ℕ). setting key (v ∷ vs) (newline ∷ rest) conf) named

  -- The same line without the space before '=' sets another key, `key=value`.
  pub parse_line-unspaced :
      (k : ℕ) (ks : List ℕ) (v : ℕ) (vs rest : List ℕ) (conf : C)
      → All IsKeyChar (k ∷ ks)
      → All IsValueChar (v ∷ vs)
      → parse_line set_value (k ∷ ks ++ equals ∷ (v ∷ vs ++ carriage_return ∷ newline ∷ rest)) conf
        ≡ setting (k ∷ ks ++ equals ∷ v ∷ vs) (v ∷ vs) (newline ∷ rest) conf
  unfolding key_string starts_with_space skip_return is_line_end
  parse_line-unspaced k ks v vs rest conf hk hv =
      let hv' = All-weaken IsKeyChar IsValueChar (λ c h. h.in_value) (k ∷ ks) hk in
      let plain = All-weaken IsKeyChar (λ c. ends_key c ≡ false) ends_key-char (k ∷ ks) hk in
      let plain' = All-weaken IsValueChar (λ c. ends_value c ≡ false) ends_value-char (v ∷ vs) hv in
      let whole =
        parse_line-regions k ks (k ∷ ks) v vs (v ∷ vs) (newline ∷ rest) (newline ∷ rest)
          carriage_return conf hk.0 plain (format_string-word k ks hv') plain'
          (format_string-word v vs hv) refl (λ e. cc e) refl in
      let starts : (v == space) ≡ false = (let n = hv.0.no_space in ground arith) in
      let named : key_string (k ∷ ks) (k ∷ ks) (v ∷ vs) (v ∷ vs) ≡ k ∷ ks ++ equals ∷ v ∷ vs =
        rw (key_string, ends_with_space-word k ks hv', starts) refl in
      whole ∙ ap (λ (key : List ℕ). setting key (v ∷ vs) (newline ∷ rest) conf) named
