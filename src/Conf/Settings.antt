-- ===== src/Conf/Settings.antt =====
-- The settings of a server, src/common/base_conf_parser.cpp, and of a proxy,
-- src/proxynode/proxy_conf_parser.cpp.
use kunlun.Prelude.Run.{Run, ret, fault, out_of_bounds, ◌>>=◌}
use kunlun.Proxy.{same_bytes}
use kunlun.Balancer.{minus_one}
use kunlun.Conf.Keys
use kunlun.Conf.{parse_conf}
use kunlun.Prelude.{
  ℕ, ◌+◌, ◌-◌, ◌*◌, ◌%◌, ◌^◌, List, [], ◌∷◌, Bool, false, ◌&&◌, ◌||◌, length, ltb, leb, ◌==◌,
  if◌then◌else◌, low_bits,
}

-- CBaseServerConf; the arrays of 256 characters hold strings without their final zero.
pub record BaseConf : Type 0 where
  pub bind_host : List ℕ
  pub nbind_port : ℕ
  pub nlog_level : ℕ
  pub nthread_stack_size : ℕ
  pub ntimeout : ℕ
  pub nwork_thread_count : ℕ
  pub sys_log_path : List ℕ

-- CBaseConfParser::init_conf
pub init_base : BaseConf
init_base = record {
  bind_host = [];
  nbind_port = 6000;
  nlog_level = 4;
  nthread_stack_size = 1 * 1024 * 1024;
  ntimeout = 5;
  nwork_thread_count = 100;
  sys_log_path = [];
}

unfoldable pub is_digit : ℕ → Bool
is_digit c = leb 48 c && leb c 57

-- The number of the digits at the head of a string, on top of `acc`.
unfoldable pub digits_value : ℕ → List ℕ → ℕ
digits_value acc [] = acc
digits_value acc (c ∷ cs) =
    let rest = digits_value (acc * 10 + (c - 48)) cs in if is_digit c then rest else acc

-- The white space that atoi skips.
unfoldable pub is_blank : ℕ → Bool
is_blank c = c == 32 || leb 9 c && leb c 13

unfoldable pub skip_blanks : List ℕ → List ℕ
skip_blanks [] = []
skip_blanks (c ∷ cs) = let rest = skip_blanks cs in if is_blank c then rest else c ∷ cs

unfoldable pub signed_value : List ℕ → ℕ
signed_value [] = 0
signed_value (c ∷ cs) =
    if c == 45
    then (2 ^ 32 - low_bits (digits_value 0 cs) 32) % 2 ^ 32
    else (if c == 43
        then low_bits (digits_value 0 cs) 32
        else low_bits (digits_value 0 (c ∷ cs)) 32)

-- get_int_value: the int that atoi gives, cut to 32 bits where the number needs more (below 2^63).
unfoldable pub get_int_value : List ℕ → ℕ
get_int_value str = signed_value (skip_blanks str)

pub get_bool_value : List ℕ → Bool
get_bool_value str = same_bytes str Keys.true_text

pub get_log_level : List ℕ → ℕ
get_log_level str =
    if same_bytes str Keys.error_text
    then 0
    else (if same_bytes str Keys.warnning_text
        then 1
        else (if same_bytes str Keys.notice_text
            then 2
            else (if same_bytes str Keys.info_text
                then 3
                else (if same_bytes str Keys.debug_text then 4 else minus_one))))

-- The digits at the head of a string, and what follows them.
unfoldable pub split_digits : List ℕ → List ℕ × List ℕ
split_digits [] = ([], [])
split_digits (c ∷ cs) =
    let (digits, unit) = split_digits cs in if is_digit c then (c ∷ digits, unit) else ([], c ∷ cs)

-- The factor of a unit; 0 for a unit that is not known.
unfoldable pub unit_factor : List ℕ → ℕ
unit_factor unit =
    if same_bytes unit []
    then 1
    else (if same_bytes unit Keys.kb_text
        then 1024
        else (if same_bytes unit Keys.mb_text
            then 1024 * 1024
            else (if same_bytes unit Keys.gb_text then 1024 * 1024 * 1024 else 0)))

-- get_bit_size. The digits are copied to an array of 11 characters and have to leave room for a zero;
-- the product is cut to 32 bits.
unfoldable pub get_bit_size : List ℕ → Run ℕ
get_bit_size str =
    let (digits, unit) = split_digits str in
    if ltb (length digits) 11
    then ret (low_bits (get_int_value digits * unit_factor unit) 32)
    else fault out_of_bounds

-- strcpy into an array of 256 characters.
pub copy_text : List ℕ → Run (List ℕ)
copy_text str = if ltb (length str) 256 then ret str else fault out_of_bounds

-- CBaseConfParser::set_value
unfoldable pub set_base_value : List ℕ → List ℕ → BaseConf → Run (BaseConf × ℕ)
set_base_value key value conf =
    if same_bytes key Keys.bind_host_key
    then (do text ← copy_text value; ret (record conf { bind_host = text }, 0))
    else (if same_bytes key Keys.bind_port_key
        then ret (record conf { nbind_port = get_int_value value }, 0)
        else (if same_bytes key Keys.work_thread_count_key
            then ret (record conf { nwork_thread_count = get_int_value value }, 0)
            else (if same_bytes key Keys.timeout_key
                then ret (record conf { ntimeout = get_int_value value }, 0)
                else (if same_bytes key Keys.sys_log_path_key
                    then (do text ← copy_text value; ret (record conf { sys_log_path = text }, 0))
                    else (if same_bytes key Keys.log_level_key
                        then ret (record conf { nlog_level = get_log_level value }, 0)
                        else (if same_bytes key Keys.thread_stack_size_key
                            then (do
                              size ← get_bit_size value
                              ret (record conf { nthread_stack_size = size }, 0))
                            else ret (conf, minus_one)))))))

-- CProxyServerConf
pub record ProxyConf : Type 0 where
  pub base : BaseConf
  pub bmaster_flag : Bool
  pub nvnode_count : ℕ
  pub nreplica_count : ℕ
  pub nnamespace_power : ℕ

-- CProxyConfParser::init_conf
pub init_proxy : ProxyConf
init_proxy = record {
  base = init_base;
  bmaster_flag = false;
  nvnode_count = 1000;
  nreplica_count = 3;
  nnamespace_power = 32;
}

-- CProxyConfParser::set_value
unfoldable pub set_proxy_value : List ℕ → List ℕ → ProxyConf → Run (ProxyConf × ℕ)
set_proxy_value key value conf =
    if same_bytes key Keys.master_flag_key
    then ret (record conf { bmaster_flag = get_bool_value value }, 0)
    else (if same_bytes key Keys.vnode_count_key
        then ret (record conf { nvnode_count = get_int_value value }, 0)
        else (if same_bytes key Keys.replica_count_key
            then ret (record conf { nreplica_count = get_int_value value }, 0)
            else (if same_bytes key Keys.namespace_power_key
                then ret (record conf { nnamespace_power = get_int_value value }, 0)
                else (do
                  (base, code) ← set_base_value key value conf.base
                  ret (record conf { base = base }, code)))))

-- The settings of a proxy that a buffer gives.
pub proxy_conf : ℕ → List ℕ → Run (ProxyConf × ℕ)
proxy_conf unset buffer = parse_conf set_proxy_value unset buffer init_proxy
