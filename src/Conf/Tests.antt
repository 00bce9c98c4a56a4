-- ===== src/Conf/Tests.antt =====
-- Small configuration files of a proxy.
use kunlun.Prelude.Run.{ret}
use kunlun.Balancer.{minus_one}
use kunlun.Proxy.{same_bytes}
use kunlun.Conf.{equals, newline, carriage_return, parse_line, parse_conf}
use kunlun.Conf.Keys
use kunlun.Conf.Lines.{IsKeyChar, IsValueChar}
use kunlun.Conf.Settings.{
  init_base, init_proxy, set_base_value, set_proxy_value, get_int_value, get_bit_size, digits_value,
  skip_blanks, signed_value, is_digit, is_blank, split_digits, unit_factor,
}
use kunlun.Conf.Files.{Setting, print_conf, set_all, parse_conf-print_conf}
use kunlun.Conf.Unspaced.{parse_line-refused}
use kunlun.Prelude.{◌*◌, ◌≡◌, refl, [], ◌∷◌, false}

-- "b" = "7"
char_b-IsKeyChar : IsKeyChar 98
char_b-IsKeyChar = record {
  in_value = record {
    no_space = λ e. cc e;
    no_newline = λ e. cc e;
    no_return = λ e. cc e;
    no_zero = λ e. cc e;
  };
  no_equals = λ e. cc e;
  no_hash = λ e. cc e;
}

digit_7-IsValueChar : IsValueChar 55
digit_7-IsValueChar = record {
  no_space = λ e. cc e;
  no_newline = λ e. cc e;
  no_return = λ e. cc e;
  no_zero = λ e. cc e;
}

abbrev setting_b : Setting
setting_b = record { key = 98 ∷ []; value = 55 ∷ [] }

parse_conf-print_conf_example :
    parse_conf set_proxy_value 9 (print_conf (setting_b ∷ []) []) init_proxy
    ≡ set_all set_proxy_value 9 (setting_b ∷ []) init_proxy
parse_conf-print_conf_example =
    parse_conf-print_conf set_proxy_value 9 (setting_b ∷ []) [] init_proxy
      (((char_b-IsKeyChar, tt), (digit_7-IsValueChar, tt)), tt)

parse_line-refused_example :
    parse_line set_proxy_value (98 ∷ equals ∷ 55 ∷ carriage_return ∷ newline ∷ 0 ∷ []) init_proxy
    ≡ ret (record { cursor = newline ∷ 0 ∷ []; last = false; conf = init_proxy; code = minus_one })
parse_line-refused_example =
    parse_line-refused 98 [] 55 [] (0 ∷ []) init_proxy (char_b-IsKeyChar, tt)
      (digit_7-IsValueChar, tt)

-- "timeout = 12"
timeout_set :
    set_all set_base_value 0
      (record { key = Keys.timeout_key; value = 49 ∷ 50 ∷ [] } ∷ [])
      init_base
    ≡ ret (record init_base { ntimeout = 12 }, 0)
unfolding set_base_value get_int_value skip_blanks is_blank signed_value digits_value is_digit
    same_bytes
timeout_set = refl

-- "64KB"
size_read : get_bit_size (54 ∷ 52 ∷ 75 ∷ 66 ∷ []) ≡ ret (64 * 1024)
unfolding get_bit_size get_int_value skip_blanks is_blank signed_value digits_value is_digit
    same_bytes split_digits unit_factor
size_read = refl
