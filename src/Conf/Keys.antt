-- ===== src/Conf/Keys.antt =====
-- The keys and words that the parsers of src/common/base_conf_parser.cpp and
-- src/proxynode/proxy_conf_parser.cpp compare with, as strings without their final zero.
use kunlun.Prelude.{ℕ, List, [], ◌∷◌}

-- "bind_host"
abbrev pub bind_host_key : List ℕ
bind_host_key = 98 ∷ 105 ∷ 110 ∷ 100 ∷ 95 ∷ 104 ∷ 111 ∷ 115 ∷ 116 ∷ []

-- "bind_port"
abbrev pub bind_port_key : List ℕ
bind_port_key = 98 ∷ 105 ∷ 110 ∷ 100 ∷ 95 ∷ 112 ∷ 111 ∷ 114 ∷ 116 ∷ []

-- "work_thread_count"
abbrev pub work_thread_count_key : List ℕ
work_thread_count_key =
    119 ∷ 111 ∷ 114 ∷ 107 ∷ 95 ∷ 116 ∷ 104 ∷ 114 ∷ 101 ∷ 97 ∷ 100 ∷ 95 ∷ 99 ∷ 111 ∷ 117 ∷ 110 ∷ 116
    ∷ []

-- "timeout"
abbrev pub timeout_key : List ℕ
timeout_key = 116 ∷ 105 ∷ 109 ∷ 101 ∷ 111 ∷ 117 ∷ 116 ∷ []

-- "sys_log_path"
abbrev pub sys_log_path_key : List ℕ
sys_log_path_key = 115 ∷ 121 ∷ 115 ∷ 95 ∷ 108 ∷ 111 ∷ 103 ∷ 95 ∷ 112 ∷ 97 ∷ 116 ∷ 104 ∷ []

-- "log_level"
abbrev pub log_level_key : List ℕ
log_level_key = 108 ∷ 111 ∷ 103 ∷ 95 ∷ 108 ∷ 101 ∷ 118 ∷ 101 ∷ 108 ∷ []

-- "thread_stack_size"
abbrev pub thread_stack_size_key : List ℕ
thread_stack_size_key =
    116 ∷ 104 ∷ 114 ∷ 101 ∷ 97 ∷ 100 ∷ 95 ∷ 115 ∷ 116 ∷ 97 ∷ 99 ∷ 107 ∷ 95 ∷ 115 ∷ 105 ∷ 122 ∷ 101
    ∷ []

-- "master_flag"
abbrev pub master_flag_key : List ℕ
master_flag_key = 109 ∷ 97 ∷ 115 ∷ 116 ∷ 101 ∷ 114 ∷ 95 ∷ 102 ∷ 108 ∷ 97 ∷ 103 ∷ []

-- "vnode_count"
abbrev pub vnode_count_key : List ℕ
vnode_count_key = 118 ∷ 110 ∷ 111 ∷ 100 ∷ 101 ∷ 95 ∷ 99 ∷ 111 ∷ 117 ∷ 110 ∷ 116 ∷ []

-- "replica_count"
abbrev pub replica_count_key : List ℕ
replica_count_key = 114 ∷ 101 ∷ 112 ∷ 108 ∷ 105 ∷ 99 ∷ 97 ∷ 95 ∷ 99 ∷ 111 ∷ 117 ∷ 110 ∷ 116 ∷ []

-- "namespace_power"
abbrev pub namespace_power_key : List ℕ
namespace_power_key =
    110 ∷ 97 ∷ 109 ∷ 101 ∷ 115 ∷ 112 ∷ 97 ∷ 99 ∷ 101 ∷ 95 ∷ 112 ∷ 111 ∷ 119 ∷ 101 ∷ 114 ∷ []

-- "error"
abbrev pub error_text : List ℕ
error_text = 101 ∷ 114 ∷ 114 ∷ 111 ∷ 114 ∷ []

-- "warnning"
abbrev pub warnning_text : List ℕ
warnning_text = 119 ∷ 97 ∷ 114 ∷ 110 ∷ 110 ∷ 105 ∷ 110 ∷ 103 ∷ []

-- "notice"
abbrev pub notice_text : List ℕ
notice_text = 110 ∷ 111 ∷ 116 ∷ 105 ∷ 99 ∷ 101 ∷ []

-- "info"
abbrev pub info_text : List ℕ
info_text = 105 ∷ 110 ∷ 102 ∷ 111 ∷ []

-- "debug"
abbrev pub debug_text : List ℕ
debug_text = 100 ∷ 101 ∷ 98 ∷ 117 ∷ 103 ∷ []

-- "true"
abbrev pub true_text : List ℕ
true_text = 116 ∷ 114 ∷ 117 ∷ 101 ∷ []

-- "KB"
abbrev pub kb_text : List ℕ
kb_text = 75 ∷ 66 ∷ []

-- "MB"
abbrev pub mb_text : List ℕ
mb_text = 77 ∷ 66 ∷ []

-- "GB"
abbrev pub gb_text : List ℕ
gb_text = 71 ∷ 66 ∷ []
