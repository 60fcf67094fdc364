-- ===== src/Sandbox.antt =====
-- src/sandbox/docker.rs: `SandboxManager::with_id`, the names of its containers, and `cleanup`.
pub mod Safe
use subdollar_llm_coding_ben.Base.{ℕ, List, Bool, ◌||◌, [], ◌∷◌, ◌++◌, if◌then◌else◌, within, ◌==◌}
use subdollar_llm_coding_ben.Text.{Text, codes, show, is_empty}

-- An ASCII letter or digit, `-` or `_`.
unfoldable pub is_safe : ℕ → Bool
is_safe c = within b'0' b'9' c || within b'A' b'Z' c || within b'a' b'z' c || c == b'-' || c == b'_'

unfoldable pub keep_safe : Text → Text
keep_safe [] = []
keep_safe (c ∷ s) = let rest = keep_safe s in if is_safe c then c ∷ rest else rest

unfoldable pub instance_id : Text → Text
instance_id id = let safe_id = keep_safe id in if is_empty safe_id then codes "default" else safe_id

abbrev pub candidate_container_name : Text → Text
candidate_container_name instance = codes "subdollar-candidate-" ++ instance

abbrev pub network_name : Text → Text
network_name instance = codes "subdollar-net-" ++ instance

abbrev pub ref_redis_name : Text → Text
ref_redis_name instance = codes "subdollar-ref-redis-" ++ instance

abbrev pub ref_http_name : Text → Text
ref_http_name instance = codes "subdollar-ref-http-" ++ instance

abbrev pub ref_dns_name : Text → Text
ref_dns_name instance = codes "subdollar-ref-dns-" ++ instance

-- The arguments of `docker rm`, with the number of this process.
abbrev pub remove_args : ℕ → Text → List Text
remove_args process_id instance =
    codes "rm"
    ∷ codes "-f"
    ∷ candidate_container_name instance
    ∷ ref_redis_name instance
    ∷ ref_http_name instance
    ∷ ref_dns_name instance
    ∷ (codes "subdollar-omp-agent-" ++ show process_id)
    ∷ codes "subdollar-ref-redis"
    ∷ codes "subdollar-ref-http"
    ∷ codes "subdollar-ref-dns"
    ∷ codes "subdollar-candidate"
    ∷ codes "subdollar-omp-agent"
    ∷ []

abbrev pub remove_network_args : Text → List Text
remove_network_args instance = codes "network" ∷ codes "rm" ∷ network_name instance ∷ []

-- `temp_path` joins a name to the directory of temporary files.
abbrev pub coredns_corefile_path : (Text → Text) → Text → Text
coredns_corefile_path temp_path instance =
    temp_path (codes "subdollar-coredns-" ++ (instance ++ codes ".corefile"))

-- `docker` runs a command and `remove_file` removes a file; what they answer is dropped.
unfoldable pub cleanup :
    {State : Type 0}
    → (List Text → State → State)
    → (Text → State → State)
    → (Text → Text)
    → ℕ
    → Text
    → State
    → State
cleanup docker remove_file temp_path process_id instance s =
    let s1 = docker (remove_args process_id instance) s in
    let s2 = docker (remove_network_args instance) s1 in
    remove_file (coredns_corefile_path temp_path instance) s2
