-- ===== src/Conf/Unspaced.antt =====
-- Lines without a space before '=', read by the parser of src/proxynode/proxy_conf_parser.cpp.
use kunlun.Prelude.Run.{ret}
use kunlun.Proxy.{same_bytes}
use kunlun.Balancer.{minus_one}
use kunlun.Conf.{equals, newline, carriage_return, parse_line}
use kunlun.Conf.Keys
use kunlun.Conf.Lines.{IsKeyChar, IsValueChar, parse_line-unspaced}
use kunlun.Conf.Settings.{ProxyConf, set_base_value, set_proxy_value}
use kunlun.Prelude.{
  ℕ, ◌≡◌, ◌∙◌, refl, List, [], ◌∷◌, ◌++◌, All, Bool, true, false, not, ◌&&◌, ◌==◌, arith,
}

abbrev free_of_equals : List ℕ → Bool
free_of_equals [] = true
free_of_equals (c ∷ cs) = not (c == equals) && free_of_equals cs

same_bytes-equals :
    (xs ys zs : List ℕ) → free_of_equals zs ≡ true → same_bytes (xs ++ equals ∷ ys) zs ≡ false
unfolding same_bytes
same_bytes-equals [] ys [] h = refl
same_bytes-equals [] ys (z ∷ zs) h = ground arith
same_bytes-equals (x ∷ xs) ys [] h = refl
same_bytes-equals (x ∷ xs) ys (z ∷ zs) h = ground (arith, same_bytes-equals xs ys zs)

-- A key with '=' in it is none of the keys.
set_proxy_value-equals :
    (xs ys value : List ℕ) (conf : ProxyConf)
    → set_proxy_value (xs ++ equals ∷ ys) value conf ≡ ret (conf, minus_one)
unfolding set_proxy_value set_base_value
set_proxy_value-equals xs ys value conf =
    let is_not = same_bytes-equals xs ys in
    rw
      (
        is_not Keys.master_flag_key refl,
        is_not Keys.vnode_count_key refl,
        is_not Keys.replica_count_key refl,
        is_not Keys.namespace_power_key refl,
        is_not Keys.bind_host_key refl,
        is_not Keys.bind_port_key refl,
        is_not Keys.work_thread_count_key refl,
        is_not Keys.timeout_key refl,
        is_not Keys.sys_log_path_key refl,
        is_not Keys.log_level_key refl,
        is_not Keys.thread_stack_size_key refl,
      )
      refl

-- A proxy refuses the line `key=value` with -1 whatever the key is, and changes no setting: without a
-- space before '=' the parser compares the string `key=value` with the keys.
pub parse_line-refused :
    (k : ℕ) (ks : List ℕ) (v : ℕ) (vs rest : List ℕ) (conf : ProxyConf)
    → All IsKeyChar (k ∷ ks)
    → All IsValueChar (v ∷ vs)
    → parse_line set_proxy_value
        (k ∷ ks ++ equals ∷ (v ∷ vs ++ carriage_return ∷ newline ∷ rest))
        conf
      ≡ ret (record { cursor = newline ∷ rest; last = false; conf = conf; code = minus_one })
parse_line-refused k ks v vs rest conf hk hv =
    parse_line-unspaced set_proxy_value k ks v vs rest conf hk hv
    ∙ rw (set_proxy_value-equals (k ∷ ks) (v ∷ vs) (v ∷ vs) conf) refl
