-- ===== src/Config.antt =====
-- src/config.rs: `TaskType`. The command line is parsed by a library.
use subdollar_llm_coding_ben.Base.{ℕ, Bool, true, false}
use subdollar_llm_coding_ben.Text.{Text, codes}

pub data TaskType : Type 0 where
  redis http dns : TaskType

abbrev pub total_stages : TaskType → ℕ
total_stages redis = 4
total_stages http = 5
total_stages dns = 6

abbrev pub default_port : TaskType → ℕ
default_port redis = 6379
default_port http = 8080
default_port dns = 5353

abbrev pub is_udp : TaskType → Bool
is_udp dns = true
is_udp redis = false
is_udp http = false

-- The `Display` of a task.
abbrev pub task_name : TaskType → Text
task_name redis = codes "redis"
task_name http = codes "http"
task_name dns = codes "dns"
