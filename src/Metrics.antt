-- ===== src/Metrics.antt =====
-- MetricsScrapper (system/include/MetricsScrapper.hpp, system/server_src/MetricsScrapper.cpp). A getter
-- is what it gives at the time of an upload, with `none` for an exception; the metrics are in the
-- order in which the map iterates. Metrics/CpuLoad has the load of the processor.
pub mod CpuLoad
use Prim.Native.String.{◌++◌ as ◌++ₛ◌}
use celte_system.Prelude.{
  ℕ, zero, suc, ◌≡◌, refl, sym, ap, ◌∙◌, Bool, true, String, List, [], ◌∷◌, ◌++◌, Option, none,
  some, value_or, if◌then◌else◌,
}
use mathlib.Core.List.{append-nil, append_assoc}
use text.Mathlib.TextLemmas.{append-nil as append-nil_text, append_assoc as append_assoc_text}
use celte_system.Prelude.Assoc
use celte_system.Prelude.Assoc.{Assoc, find-put}
use celte_system.Config
use celte_system.Config.{Config}

pub record MetricsScrapper : Type 0 where
  pub metrics : Assoc (Option String)
  pub metrics_upload_interval : ℕ
  pub has_curl : Bool
  pub url : String
  pub upload_thread_running : Bool
  -- What was posted: the url and the text.
  pub posted : List (String × String)
  pub failed : List String

unfoldable pub register_metric : MetricsScrapper → String → Option String → MetricsScrapper
register_metric m name getter = record m { metrics = Assoc.put m.metrics name getter }

-- The loop of PushMetrics: the text so far, and the names of the metrics whose getter throws.
unfoldable metrics_data : Assoc (Option String) → String → List String → String × List String
metrics_data [] text failed = (text, failed)
metrics_data ((name, none) ∷ ms) text failed = metrics_data ms text (failed ++ (name ∷ []))
metrics_data ((name, some value) ∷ ms) text failed =
    metrics_data ms (text ++ₛ (((name ++ₛ " ") ++ₛ value) ++ₛ "\n")) failed

-- PushMetrics; an error of the upload is only logged.
unfoldable push_metrics : MetricsScrapper → MetricsScrapper
push_metrics m =
    if m.has_curl
    then (let (text, failed) = metrics_data m.metrics "" [] in
        record m { posted = m.posted ++ ((m.url, text) ∷ []); failed = m.failed ++ failed })
    else m

-- Start, where `cpu_load` is the getter of the load. The worker is started before the interval is
-- read, and the interval stays where it is missing or no number.
unfoldable pub start :
    (stoi : String → Option ℕ) (env : String → Option String) (uuid : String)
    (cpu_load : Option String)
    → Config
    → MetricsScrapper
    → MetricsScrapper
start stoi env uuid cpu_load config m =
    let host = value_or (Config.get env config "PUSHGATEWAY_HOST") "localhost" in
    let port = value_or (Config.get env config "PUSHGATEWAY_PORT") "9091" in
    let url = ((("http://" ++ₛ host) ++ₛ ":") ++ₛ port) ++ₛ ("/metrics/job/" ++ₛ uuid) in
    let running = record (register_metric (record m { url = url }) "cpu_load" cpu_load) {
      upload_thread_running = true;
    } in
    elim (Config.get env config "METRICS_UPLOAD_INTERVAL") [
      | none ↦ running
      | some text ↦ elim (stoi text) [
        | none ↦ running
        | some interval ↦ record running { metrics_upload_interval = interval }
      ]
    ]

-- The loop of __uploadWorker, on fuel, where `interrupt` is what the destructor sets between two
-- rounds: `none` is a worker that has not ended.
unfoldable upload_worker : (fuel : ℕ) → (ℕ → Bool) → MetricsScrapper → Option MetricsScrapper
upload_worker zero running m = none
upload_worker (suc fuel) running m =
    upload_worker fuel running (record (push_metrics m) { upload_thread_running = running fuel })

-- The worker does not end, whatever is written into _uploadThreadRunning, so that the join of the
-- destructor does not return.
upload_worker-endless :
    (fuel : ℕ) (running : ℕ → Bool) (m : MetricsScrapper) → upload_worker fuel running m ≡ none
unfolding upload_worker
upload_worker-endless zero running m = refl
upload_worker-endless (suc fuel) running m =
    upload_worker-endless fuel running
      (record (push_metrics m) { upload_thread_running = running fuel })

-- The lines of the metrics whose getter does not throw.
unfoldable lines : Assoc (Option String) → String
lines [] = ""
lines ((name, none) ∷ ms) = lines ms
lines ((name, some value) ∷ ms) = (((name ++ₛ " ") ++ₛ value) ++ₛ "\n") ++ₛ lines ms

unfoldable throwing : Assoc (Option String) → List String
throwing [] = []
throwing ((name, none) ∷ ms) = name ∷ throwing ms
throwing ((name, some value) ∷ ms) = throwing ms

-- An upload posts one line for each metric whose getter gives a value, in the order of the map, and
-- a getter that throws costs only its own line.
metrics_data-lines :
    (ms : Assoc (Option String)) (text : String) (failed : List String)
    → metrics_data ms text failed ≡ (text ++ₛ lines ms, failed ++ throwing ms)
unfolding metrics_data lines throwing
metrics_data-lines [] text failed =
    ap (λ (t : String). (t, failed)) (sym (append-nil_text text))
    ∙ ap (λ (f : List String). (text ++ₛ "", f)) (sym (append-nil failed))
metrics_data-lines ((name, none) ∷ ms) text failed =
    metrics_data-lines ms text (failed ++ (name ∷ []))
    ∙ ap (λ (f : List String). (text ++ₛ lines ms, f))
        (append_assoc failed (name ∷ []) (throwing ms))
metrics_data-lines ((name, some value) ∷ ms) text failed =
    let line = ((name ++ₛ " ") ++ₛ value) ++ₛ "\n" in
    metrics_data-lines ms (text ++ₛ line) failed
    ∙ ap (λ (t : String). (t, failed ++ throwing ms)) (append_assoc_text text line (lines ms))
