-- ===== src/Canary.antt =====
-- runtime/poller/gen_pin.py, canary_readonly.py and probe_env.py: the pin of the files of the chain,
-- and the checks before the poller's unit is started.
pub mod Pin
pub mod Secrets
pub mod Checks
pub mod Laws
pub mod Pinned
pub mod Verdict
pub mod Prepared
pub mod Probe
pub mod Probes
