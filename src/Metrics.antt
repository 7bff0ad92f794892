-- ===== src/Metrics.antt =====
-- The batches of quality metrics: internal/metrics/writer.go. A time in milliseconds is a number.
pub mod Batches
pub mod Subscription
use lalo_lao_alo.Base.{
  ℕ, zero, suc, ◌+◌, Bool, true, false, not, ◌||◌, List, [], ◌∷◌, ◌++◌, Option, none, some, leb,
  if◌then◌else◌, length, is_empty,
}
use lalo_lao_alo.Common.{UserId, CallId, Time, is_zero}
use lalo_lao_alo.Text.{Text}

pub record MetricsRow (F : Type 0) : Type 0 where
  pub call_id : CallId
  pub participant_id : UserId
  pub timestamp : Time
  pub direction : Text
  pub rtt_ms : ℕ
  pub loss_pct : F
  pub jitter_ms : F
  pub bitrate_kbps : ℕ
  pub framerate : ℕ
  pub resolution : Text
  pub network_tier : Text

pub record QualitySample (F : Type 0) : Type 0 where
  pub participant_id : UserId
  pub timestamp : Time
  pub direction : Text
  pub rtt_ms : ℕ
  pub loss_pct : F
  pub jitter_ms : F
  pub bitrate_kbps : ℕ
  pub framerate : ℕ
  pub resolution : Text
  pub network_tier : Text

pub record QualityMetrics (F : Type 0) : Type 0 where
  pub call_id : CallId
  pub samples : List (QualitySample F)

-- `batches` are those that have been handed to a writing goroutine, in their order.
pub record Writer (F : Type 0) : Type 0 where
  pub buffer : List (MetricsRow F)
  pub batch_size : ℕ
  pub batches : List (List (MetricsRow F))

module _ {F : Type 0} where
  unfoldable pub new_writer : ℕ → Writer F
  new_writer batch_size = record {
    buffer = [];
    batch_size = if is_zero batch_size then 100 else batch_size;
    batches = [];
  }

  abbrev pub row : Time → CallId → QualitySample F → MetricsRow F
  row now c s = record {
    call_id = c;
    participant_id = s.participant_id;
    timestamp = if is_zero s.timestamp then now else s.timestamp;
    direction = s.direction;
    rtt_ms = s.rtt_ms;
    loss_pct = s.loss_pct;
    jitter_ms = s.jitter_ms;
    bitrate_kbps = s.bitrate_kbps;
    framerate = s.framerate;
    resolution = s.resolution;
    network_tier = s.network_tier;
  }

  unfoldable pub append_rows :
      Time → CallId → List (QualitySample F) → List (MetricsRow F) → List (MetricsRow F)
  append_rows now c [] rows = rows
  append_rows now c (s ∷ ss) rows = append_rows now c ss (rows ++ row now c s ∷ [])

  unfoldable pub flush_locked : Writer F → Writer F
  flush_locked w =
      if is_empty w.buffer
      then w
      else record w { buffer = []; batches = w.batches ++ w.buffer ∷ [] }

  unfoldable pub ingest : Time → QualityMetrics F → Writer F → Writer F
  ingest now m w =
      let w' = record w { buffer = append_rows now m.call_id m.samples w.buffer } in
      if leb w'.batch_size (length w'.buffer) then flush_locked w' else w'

  -- `Stop`: the final flush.
  unfoldable pub stop : Writer F → Writer F
  stop w = flush_locked w

-- Which steps of a transaction the database refuses.
pub record Transaction : Type 0 where
  pub begin_fails : Bool
  pub prepare_fails : Bool
  pub exec_fails : ℕ → Bool
  pub commit_fails : Bool

-- The rows of the transaction, or `none` where an insertion fails and all is rolled back.
unfoldable pub inserted : {A : Type 0} → (ℕ → Bool) → ℕ → List A → List A → Option (List A)
inserted fails n [] table = some table
inserted fails n (r ∷ rs) table =
    let rest = inserted fails (suc n) rs (table ++ r ∷ []) in if fails n then none else rest

abbrev pub committed : {A : Type 0} → Bool → Option (List A) → List A → List A × Bool
committed fails none table = (table, false)
committed fails (some table') table = if fails then (table, false) else (table', true)

-- The table `qos_metrics` after a batch, and whether the batch was written without an error. Without
-- a database the rows are dropped, and that is no error.
unfoldable pub write_batch : {A : Type 0} → Bool → Transaction → List A → List A → List A × Bool
write_batch has_db tx rows table =
    if not has_db
    then (table, true)
    else if tx.begin_fails || tx.prepare_fails
    then (table, false)
    else committed tx.commit_fails (inserted tx.exec_fails 0 rows table) table
