-- ===== src/Pipeline/Judge/Fairness.antt =====
-- The summaries of the three verifiers, as the pipeline reads them.
use subdollar_llm_coding_ben.Text.{Text}
use subdollar_llm_coding_ben.Redis.Stages as RedisStages
use subdollar_llm_coding_ben.Http.Stages as HttpStages
use subdollar_llm_coding_ben.Dns.Stages as DnsStages
