-- ===== src/Runner/Pumps.antt =====
-- What the two readers of a command (internal/app/runner.go) hand on, in any order of their steps.
use personal_yt_downloader.Common.{
  drop-nil, last_of, ℕ, ◌-◌, ◌≤◌, ◌≡◌, refl, sym, String, Option, none, some, List, [], ◌∷◌, ◌++◌,
  ap, ◌∙◌, subst, arith,
}
use mathlib.Core.List.{append_assoc, append-nil}
use personal_yt_downloader.Runner.{
  TailBuffer, add, snapshot, tail_limit, Pump, World, start, Step, add_out, emit_out, add_err,
  emit_err, Reach, here, then_step, IsDone,
}
use personal_yt_downloader.Runner.Tail.{add-last_of, tail_limit_positive}

-- The third list consists of the entries of the first two, each in its order.
pub data Interleaves : List String → List String → List String → Type 0 where
  nothing : Interleaves [] [] []
  from_first :
      (l : String) (xs ys zs : List String)
      → Interleaves xs ys zs
      → Interleaves (l ∷ xs) ys (l ∷ zs)
  from_second :
      (l : String) (xs ys zs : List String)
      → Interleaves xs ys zs
      → Interleaves xs (l ∷ ys) (l ∷ zs)

snoc_first :
    (l : String) (xs ys zs : List String)
    → Interleaves xs ys zs
    → Interleaves (xs ++ l ∷ []) ys (zs ++ l ∷ [])
snoc_first l _ _ _ nothing = from_first l [] [] [] nothing
snoc_first l _ _ _ (from_first x xs ys zs i) =
    from_first x (xs ++ l ∷ []) ys (zs ++ l ∷ []) (snoc_first l xs ys zs i)
snoc_first l _ _ _ (from_second x xs ys zs i) =
    from_second x (xs ++ l ∷ []) ys (zs ++ l ∷ []) (snoc_first l xs ys zs i)

snoc_second :
    (l : String) (xs ys zs : List String)
    → Interleaves xs ys zs
    → Interleaves xs (ys ++ l ∷ []) (zs ++ l ∷ [])
snoc_second l _ _ _ nothing = from_second l [] [] [] nothing
snoc_second l _ _ _ (from_first x xs ys zs i) =
    from_first x xs (ys ++ l ∷ []) (zs ++ l ∷ []) (snoc_second l xs ys zs i)
snoc_second l _ _ _ (from_second x xs ys zs i) =
    from_second x xs (ys ++ l ∷ []) (zs ++ l ∷ []) (snoc_second l xs ys zs i)

-- The line that is not handed on yet.
abbrev pub pending_lines : Option String → List String
pending_lines none = []
pending_lines (some l) = l ∷ []

-- A pump has read `taken` of all its lines, and has handed on `sent`.
abbrev IsReading : List String → Pump → List String → List String → Type 0
IsReading all p taken sent = (all ≡ taken ++ p.ahead) × (taken ≡ sent ++ pending_lines p.pending)

pub record IsFaithful (max : ℕ) (out err : List String) (w : World) : Type 0 where
  pub taken_out : List String
  pub taken_err : List String
  pub sent_out : List String
  pub sent_err : List String
  pub added : List String
  pub reading_out : IsReading out w.out taken_out sent_out
  pub reading_err : IsReading err w.err taken_err sent_err
  pub added_mixed : Interleaves taken_out taken_err added
  pub emitted_mixed : Interleaves sent_out sent_err w.emitted
  pub tail_last : w.tail ≡ record { lines = last_of max added; max = max }

IsReading-add :
    (all rest taken sent : List String) (l : String)
    → IsReading all (record { ahead = l ∷ rest; pending = none }) taken sent
    → IsReading all (record { ahead = rest; pending = some l }) (taken ++ l ∷ []) sent
IsReading-add all rest taken sent l (h, e) =
    (h ∙ sym (append_assoc taken (l ∷ []) rest), ap (λ x. x ++ l ∷ []) (e ∙ append-nil sent))

IsReading-emit :
    (all rest taken sent : List String) (l : String)
    → IsReading all (record { ahead = rest; pending = some l }) taken sent
    → IsReading all (record { ahead = rest; pending = none }) taken (sent ++ l ∷ [])
IsReading-emit all rest taken sent l (h, e) = (h, e ∙ sym (append-nil (sent ++ l ∷ [])))

added_last :
    (max : ℕ) (added : List String) (l : String) (tail after : TailBuffer)
    → 1 ≤ max
    → tail ≡ record { lines = last_of max added; max = max }
    → add tail l ≡ some after
    → after ≡ record { lines = last_of max (added ++ l ∷ []); max = max }
added_last max added l tail after h e a =
    let b = ap (λ t. add t l) e ∙ add-last_of max added l h in ground (arith, a, b)

module _ (max : ℕ) (out err : List String) (positive : 1 ≤ max) where
  pub Step-IsFaithful :
      (w v : World) → Step w v → IsFaithful max out err w → IsFaithful max out err v
  Step-IsFaithful _ _ (add_out l rest other tail after emitted a) f = record {
    taken_out = f.taken_out ++ l ∷ [];
    taken_err = f.taken_err;
    sent_out = f.sent_out;
    sent_err = f.sent_err;
    added = f.added ++ l ∷ [];
    reading_out = IsReading-add out rest f.taken_out f.sent_out l f.reading_out;
    reading_err = f.reading_err;
    added_mixed = snoc_first l f.taken_out f.taken_err f.added f.added_mixed;
    emitted_mixed = f.emitted_mixed;
    tail_last = added_last max f.added l tail after positive f.tail_last a;
  }
  Step-IsFaithful _ _ (emit_out l rest other tail emitted) f = record {
    taken_out = f.taken_out;
    taken_err = f.taken_err;
    sent_out = f.sent_out ++ l ∷ [];
    sent_err = f.sent_err;
    added = f.added;
    reading_out = IsReading-emit out rest f.taken_out f.sent_out l f.reading_out;
    reading_err = f.reading_err;
    added_mixed = f.added_mixed;
    emitted_mixed = snoc_first l f.sent_out f.sent_err emitted f.emitted_mixed;
    tail_last = f.tail_last;
  }
  Step-IsFaithful _ _ (add_err l rest other tail after emitted a) f = record {
    taken_out = f.taken_out;
    taken_err = f.taken_err ++ l ∷ [];
    sent_out = f.sent_out;
    sent_err = f.sent_err;
    added = f.added ++ l ∷ [];
    reading_out = f.reading_out;
    reading_err = IsReading-add err rest f.taken_err f.sent_err l f.reading_err;
    added_mixed = snoc_second l f.taken_out f.taken_err f.added f.added_mixed;
    emitted_mixed = f.emitted_mixed;
    tail_last = added_last max f.added l tail after positive f.tail_last a;
  }
  Step-IsFaithful _ _ (emit_err l rest other tail emitted) f = record {
    taken_out = f.taken_out;
    taken_err = f.taken_err;
    sent_out = f.sent_out;
    sent_err = f.sent_err ++ l ∷ [];
    added = f.added;
    reading_out = f.reading_out;
    reading_err = IsReading-emit err rest f.taken_err f.sent_err l f.reading_err;
    added_mixed = f.added_mixed;
    emitted_mixed = snoc_second l f.sent_out f.sent_err emitted f.emitted_mixed;
    tail_last = f.tail_last;
  }

  pub start-IsFaithful : IsFaithful max out err (start max out err)
  start-IsFaithful = record {
    taken_out = [];
    taken_err = [];
    sent_out = [];
    sent_err = [];
    added = [];
    reading_out = (refl, refl);
    reading_err = (refl, refl);
    added_mixed = nothing;
    emitted_mixed = nothing;
    tail_last = rw (drop-nil (0 - max)) refl;
  }

  pub Reach-IsFaithful :
      (w v : World) → Reach w v → IsFaithful max out err w → IsFaithful max out err v
  Reach-IsFaithful _ _ (here _) f = f
  Reach-IsFaithful _ _ (then_step w v u r s) f = Step-IsFaithful v u s (Reach-IsFaithful w v r f)

done_all :
    (all taken sent : List String) (p : Pump)
    → IsReading all p taken sent
    → IsDone p
    → (taken ≡ all) × (sent ≡ all)
done_all all taken sent p (h, e) (ended, handed) =
    let t : all ≡ taken = h ∙ ap (λ x. taken ++ x) ended ∙ append-nil taken in
    let s : taken ≡ sent = e ∙ ap (λ x. sent ++ pending_lines x) handed ∙ append-nil sent in
    (sym t, sym s ∙ sym t)

-- In every run of the two readers that has come to its end, in any order of their steps, the
-- callback received the lines of both pipes once each and in the order of each pipe, and the tail
-- is the last lines, up to its limit, of such an interleaving.
pub Reach-snapshot :
    (tail_lines : ℕ) (out err : List String) (w : World)
    → Reach (start (tail_limit tail_lines) out err) w
    → IsDone w.out
    → IsDone w.err
    → (added : List String) × Interleaves out err w.emitted
      × Interleaves out err added
      × (snapshot w.tail ≡ last_of (tail_limit tail_lines) added)
Reach-snapshot tail_lines out err w r done_out done_err =
    let max = tail_limit tail_lines in
    let f =
      Reach-IsFaithful max out err (tail_limit_positive tail_lines) (start max out err) w r
        (start-IsFaithful max out err (tail_limit_positive tail_lines)) in
    let (taken_out, sent_out) = done_all out f.taken_out f.sent_out w.out f.reading_out done_out in
    let (taken_err, sent_err) = done_all err f.taken_err f.sent_err w.err f.reading_err done_err in
    (
      f.added,
      subst (λ x. Interleaves x err w.emitted) sent_out
          (subst (λ x. Interleaves f.sent_out x w.emitted) sent_err f.emitted_mixed),
      subst (λ x. Interleaves x err f.added) taken_out
          (subst (λ x. Interleaves f.taken_out x f.added) taken_err f.added_mixed),
      ap (λ t. snapshot t) f.tail_last,
    )
