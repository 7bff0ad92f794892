-- ===== src/Metrics/Batches.antt =====
-- Where the rows go that the writer of internal/metrics/writer.go takes in.
use lalo_lao_alo.Base.{
  ℕ, zero, suc, ◌≡◌, ◌<◌, ◌⊎◌, inl, inr, refl, sym, ◌∙◌, Bool, true, false, ◌||◌, List, [], ◌∷◌,
  ◌++◌, map, none, some, leb, length, is_empty, Bool-cases, arith,
}
use mathlib.Core.List.{append_assoc, append-nil}
use lalo_lao_alo.Common.{Time, CallId}
use lalo_lao_alo.Metrics.{
  MetricsRow, QualitySample, QualityMetrics, Writer, row, append_rows, flush_locked, ingest, stop,
  new_writer, Transaction, inserted, write_batch,
}

pub data Event (F : Type 0) : Type 0 where
  metrics : Time → QualityMetrics F → Event F
  tick stopping : Event F

module _ {F : Type 0} where
  unfoldable pub handle : Event F → Writer F → Writer F
  handle (metrics now m) w = ingest now m w
  handle tick w = flush_locked w
  handle stopping w = stop w

  unfoldable pub handle_all : List (Event F) → Writer F → Writer F
  handle_all [] w = w
  handle_all (e ∷ es) w = handle_all es (handle e w)

  -- The rows of the samples of the events, in their order.
  abbrev pub rows_of : List (Event F) → List (MetricsRow F)
  rows_of [] = []
  rows_of (metrics now m ∷ es) = map (row now m.call_id) m.samples ++ rows_of es
  rows_of (tick ∷ es) = rows_of es
  rows_of (stopping ∷ es) = rows_of es

abbrev pub concat : {A : Type 0} → List (List A) → List A
concat [] = []
concat (xs ∷ xss) = xs ++ concat xss

abbrev pub any_empty : {A : Type 0} → List (List A) → Bool
any_empty [] = false
any_empty (xs ∷ xss) = is_empty xs || any_empty xss

concat-snoc :
    {A : Type 0} (xss : List (List A)) (xs : List A) → concat (xss ++ xs ∷ []) ≡ concat xss ++ xs
concat-snoc [] xs = append-nil xs
concat-snoc (ys ∷ xss) xs = rw (concat-snoc xss xs) (sym (append_assoc ys (concat xss) xs))

any_empty-snoc :
    {A : Type 0} (xss : List (List A)) (xs : List A)
    → any_empty (xss ++ xs ∷ []) ≡ any_empty xss || is_empty xs
any_empty-snoc [] xs = ground arith
any_empty-snoc (ys ∷ xss) xs = ground (arith, any_empty-snoc xss xs)

nothing : {A : Type 0} (xs : List A) → is_empty xs ≡ true → xs ≡ []
nothing [] h = refl
nothing (x ∷ xs) h = cc

module _ {F : Type 0} where
  -- All rows that the writer has taken in, written or not.
  abbrev pub taken : Writer F → List (MetricsRow F)
  taken w = concat w.batches ++ w.buffer

  append_rows-map :
      (now : Time) (c : CallId) (ss : List (QualitySample F)) (rows : List (MetricsRow F))
      → append_rows now c ss rows ≡ rows ++ map (row now c) ss
  unfolding append_rows
  append_rows-map now c [] rows = sym (append-nil rows)
  append_rows-map now c (s ∷ ss) rows =
      append_rows-map now c ss (rows ++ row now c s ∷ [])
      ∙ append_assoc rows (row now c s ∷ []) (map (row now c) ss)

  flush-taken : (w : Writer F) → taken (flush_locked w) ≡ taken w
  unfolding flush_locked
  flush-taken w = elim (Bool-cases (is_empty w.buffer)) [
    | inl e ↦ simp e
    | inr e ↦ simp (e, append-nil, concat-snoc w.batches w.buffer)
  ]

  -- A buffer below the size of a batch, and no empty batch.
  pub record Fits (w : Writer F) : Type 0 where
    pub positive : 0 < w.batch_size
    pub below : length w.buffer < w.batch_size
    pub nonempty : any_empty w.batches ≡ false

  flush-Fits :
      (w : Writer F) → 0 < w.batch_size → any_empty w.batches ≡ false → Fits (flush_locked w)
  unfolding flush_locked
  flush-Fits w p n = elim (Bool-cases (is_empty w.buffer)) [
    | inl e ↦ simp e (record { positive = p; below = rw (nothing w.buffer e) p; nonempty = n })
    | inr e ↦ simp e (record {
      positive = p;
      below = p;
      nonempty = ground (arith, any_empty-snoc w.batches w.buffer, n, e);
    })
  ]

  ingest-taken :
      (now : Time) (m : QualityMetrics F) (w : Writer F)
      → taken (ingest now m w) ≡ taken w ++ map (row now m.call_id) m.samples
  unfolding ingest
  ingest-taken now m w =
      let w' = record w { buffer = append_rows now m.call_id m.samples w.buffer } in
      let grown : taken w' ≡ taken w ++ map (row now m.call_id) m.samples =
        rw (append_rows-map now m.call_id m.samples w.buffer)
          (sym (append_assoc (concat w.batches) w.buffer (map (row now m.call_id) m.samples))) in
      elim (Bool-cases (leb w'.batch_size (length w'.buffer))) [
        | inl e ↦ simp e (flush-taken w' ∙ grown)
        | inr e ↦ simp e grown
      ]

  handle-taken : (e : Event F) (w : Writer F) → taken (handle e w) ≡ taken w ++ rows_of (e ∷ [])
  unfolding handle stop
  handle-taken (metrics now m) w = simp append-nil (ingest-taken now m w)
  handle-taken tick w = flush-taken w ∙ sym (append-nil (taken w))
  handle-taken stopping w = flush-taken w ∙ sym (append-nil (taken w))

  rows_of-cons :
      (e : Event F) (es : List (Event F)) → rows_of (e ∷ es) ≡ rows_of (e ∷ []) ++ rows_of es
  rows_of-cons (metrics now m) es = simp append-nil
  rows_of-cons tick es = refl
  rows_of-cons stopping es = refl

  handle_all-taken :
      (es : List (Event F)) (w : Writer F) → taken (handle_all es w) ≡ taken w ++ rows_of es
  unfolding handle_all
  handle_all-taken [] w = sym (append-nil (taken w))
  handle_all-taken (e ∷ es) w =
      rw (handle_all-taken es (handle e w), handle-taken e w, rows_of-cons e es)
        (append_assoc (taken w) (rows_of (e ∷ [])) (rows_of es))

  ingest-Fits : (now : Time) (m : QualityMetrics F) (w : Writer F) → Fits w → Fits (ingest now m w)
  unfolding ingest
  ingest-Fits now m w f =
      let w' = record w { buffer = append_rows now m.call_id m.samples w.buffer } in
      elim (Bool-cases (leb w'.batch_size (length w'.buffer))) [
        | inl e ↦ simp e (flush-Fits w' f.positive f.nonempty)
        | inr e ↦
            simp e
              (record { positive = f.positive; below = ground (arith, e); nonempty = f.nonempty })
      ]

  handle-Fits : (e : Event F) (w : Writer F) → Fits w → Fits (handle e w)
  unfolding handle stop
  handle-Fits (metrics now m) w f = ingest-Fits now m w f
  handle-Fits tick w f = flush-Fits w f.positive f.nonempty
  handle-Fits stopping w f = flush-Fits w f.positive f.nonempty

  handle_all-Fits : (es : List (Event F)) (w : Writer F) → Fits w → Fits (handle_all es w)
  unfolding handle_all
  handle_all-Fits [] w f = f
  handle_all-Fits (e ∷ es) w f = handle_all-Fits es (handle e w) (handle-Fits e w f)

  new_writer-Fits : (n : ℕ) → Fits (new_writer n)
  unfolding new_writer
  new_writer-Fits zero = record { positive = omega arith; below = omega arith; nonempty = refl }
  new_writer-Fits (suc n) = record {
    positive = ground arith;
    below = ground arith;
    nonempty = refl;
  }

-- A new writer loses, repeats and reorders nothing: after any metrics, ticks and stops, its batches
-- in their order and then its buffer are the rows of the samples in their order. No batch is empty,
-- and the buffer is shorter than the size of a batch.
pub rows_conserved :
    {F : Type 0} (batch_size : ℕ) (es : List (Event F))
    → let w = handle_all es (new_writer batch_size) in
      (concat w.batches ++ w.buffer ≡ rows_of es)
      × (any_empty w.batches ≡ false)
      × (length w.buffer < w.batch_size)
unfolding new_writer
rows_conserved batch_size es =
    let f = handle_all-Fits es (new_writer batch_size) (new_writer-Fits batch_size) in
    (handle_all-taken es (new_writer batch_size), f.nonempty, f.below)

inserted-append :
    {A : Type 0} (fails : ℕ → Bool) (n : ℕ) (rows table : List A)
    → (inserted fails n rows table ≡ none) ⊎ (inserted fails n rows table ≡ some (table ++ rows))
unfolding inserted
inserted-append fails n [] table = inr (simp append-nil)
inserted-append fails n (r ∷ rs) table =
    ground
      (arith, inserted-append fails (suc n) rs (table ++ r ∷ []), append_assoc table (r ∷ []) rs)

-- With a database, a batch is written whole or not at all: without an error the table has all its
-- rows after those that it had, and with an error the table is as it was.
write_batch_whole :
    {A : Type 0} (tx : Transaction) (rows table : List A)
    → (write_batch true tx rows table ≡ (table ++ rows, true))
      ⊎ (write_batch true tx rows table ≡ (table, false))
unfolding write_batch
write_batch_whole tx rows table = ground (arith, inserted-append tx.exec_fails 0 rows table)
