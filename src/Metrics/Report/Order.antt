-- ===== src/Metrics/Report/Order.antt =====
-- The JSON report does not depend on the order of the recorded timings: it is a function of the
-- bag of them.
use mathlib.Core.List.{Perm, append-nil, append_assoc}
use mathlib.Core.List.Perm
use mathlib.Core.HLevel.{prop→set}
use mathlib.Core.Quot
use mathlib.Core.Quot.{Quot, Quot-set}
use Prim.Native.Char.{IsScalar}
use Prim.Native.String.{String}
use text.Mathlib.TextEquality.{IsScalar-prop}
use vdi_cpp_wrapper.Prelude.{ℕ, ◌≡◌, refl, sym, ap, ◌∙◌, List, [], ◌∷◌, ◌++◌}
use vdi_cpp_wrapper.Metrics.{Metrics, ChunkTiming, stage_values, record_chunk_timing}
use vdi_cpp_wrapper.Metrics.Percentile.Order.{percentile-Perm}
use vdi_cpp_wrapper.Metrics.Report.{Outside, stage_json, timing_json, to_json}

-- Timings up to their order.
abbrev pub Timings : Type 0
Timings = Quot (Perm {A = ChunkTiming})

stage_json-Perm :
    (o : Outside) (m : Metrics) (field : ChunkTiming → ℕ) {ts us : List ChunkTiming}
    → Perm ts us
    → stage_json o (record m { timings = ts }) field
      ≡ stage_json o (record m { timings = us }) field
unfolding stage_json stage_values
stage_json-Perm o m field e =
    let q = Perm.map field e in
    rw (percentile-Perm o.rank 50 q, percentile-Perm o.rank 95 q, percentile-Perm o.rank 99 q) refl

to_json-Perm :
    (o : Outside) (m : Metrics) (ts us : List ChunkTiming)
    → Perm ts us
    → to_json o (record m { timings = ts }) ≡ to_json o (record m { timings = us })
unfolding to_json timing_json
to_json-Perm o m ts us e =
    rw
      (
        stage_json-Perm o m (λ t. t.getcommand_us) e,
        stage_json-Perm o m (λ t. t.dispatch_us) e,
        stage_json-Perm o m (λ t. t.sink_us) e,
        stage_json-Perm o m (λ t. t.complete_us) e,
        stage_json-Perm o m (λ t. t.total_us) e,
      )
      refl

IsScalar-set : (n : ℕ) → IsSet (IsScalar n)
IsScalar-set n = prop→set (IsScalar-prop n)

String-set : IsSet String
String-set = hlevel IsScalar-set

-- The report as a function of the counters of `m` and of a bag of timings.
json_of : Outside → Metrics → Timings → String
json_of o m =
    Quot.lift String-set (λ ts. to_json o (record m { timings = ts }))
      (λ ts us e. to_json-Perm o m ts us e)

-- A bag behind the timings that are there already.
behind : List ChunkTiming → Timings → Timings
behind before =
    Quot.lift Quot-set (λ ts. Quot.mk (before ++ ts))
      (λ ts us e. Quot.sound (Perm.append_left before e))

unfoldable pub record_all : Metrics → List ChunkTiming → Metrics
record_all m [] = m
record_all m (t ∷ ts) = record_all (record_chunk_timing m t) ts

record_all_lem :
    (m : Metrics) (ts : List ChunkTiming) → record_all m ts ≡ record m { timings = m.timings ++ ts }
unfolding record_all record_chunk_timing
record_all_lem m [] = ap (λ l. record m { timings = l }) (sym (append-nil m.timings))
record_all_lem m (t ∷ ts) =
    record_all_lem (record_chunk_timing m t) ts
    ∙ ap (λ l. record m { timings = l }) (append_assoc m.timings (t ∷ []) ts)

to_json-json_of :
    (o : Outside) (m : Metrics) (ts : List ChunkTiming)
    → to_json o (record_all m ts) ≡ json_of o m (behind m.timings (Quot.mk ts))
unfolding json_of behind
to_json-json_of o m ts = ap (to_json o) (record_all_lem m ts)

-- The timings of one bag give the same JSON report in whatever order record_chunk_timing records
-- them, behind whatever was recorded before.
pub to_json-record_all :
    (o : Outside) (m : Metrics) (ts us : List ChunkTiming)
    → Path Timings (Quot.mk ts) (Quot.mk us)
    → to_json o (record_all m ts) ≡ to_json o (record_all m us)
to_json-record_all o m ts us e =
    to_json-json_of o m ts
    ∙ ap (λ b. json_of o m (behind m.timings b)) e
    ∙ sym (to_json-json_of o m us)
