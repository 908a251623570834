-- ===== src/Runner/Finish.antt =====
-- The two readers of a command (internal/app/runner.go) always come to their end.
use personal_yt_downloader.Common.{
  last_of, ℕ, zero, suc, ◌+◌, ◌*◌, ◌≤◌, ◌≡◌, refl, String, Option, none, some, List, [], ◌∷◌, ◌++◌,
  length, ap, ◌∙◌, arith,
}
use personal_yt_downloader.Runner.{
  TailBuffer, add, tail_limit, Pump, World, start, Step, add_out, emit_out, add_err, emit_err,
  Reach, here, then_step, IsDone,
}
use personal_yt_downloader.Runner.Tail.{add-last_of, tail_limit_positive}
use personal_yt_downloader.Runner.Pumps.{
  pending_lines, IsFaithful, Step-IsFaithful, start-IsFaithful, Reach-IsFaithful,
}

-- The steps that a pump has to do yet.
abbrev pub work : Pump → ℕ
work p = 2 * length p.ahead + length (pending_lines p.pending)

next_step : (w v : World) → Step w v → (u : World) → Reach v u → Reach w u
next_step w v s u (here _) = then_step w w u (here w) s
next_step w v s u (then_step _ x _ r t) = then_step w x u (next_step w v s x r) t

module _ (max : ℕ) (out err : List String) (positive : 1 ≤ max) where
  abbrev Finishes : World → Type 0
  Finishes w = (v : World) × Reach w v × IsDone v.out × IsDone v.err

  after-Step : (w v : World) → Step w v → Finishes v → Finishes w
  after-Step w v s (u, r, done_out, done_err) = (u, next_step w v s u r, done_out, done_err)

  abbrev world_of :
      List String → Option String → List String → Option String → TailBuffer → List String → World
  world_of ahead pending ahead' pending' tail emitted = record {
    out = record { ahead = ahead; pending = pending };
    err = record { ahead = ahead'; pending = pending' };
    tail = tail;
    emitted = emitted;
  }

  -- The tail takes the next line.
  add_succeeds :
      (w : World) (l : String)
      → IsFaithful max out err w
      → (after : TailBuffer) × (add w.tail l ≡ some after)
  add_succeeds w l f = (
    record { lines = last_of max (f.added ++ l ∷ []); max = max },
    ap (λ t. add t l) f.tail_last ∙ add-last_of max f.added l positive,
  )

  -- With a bound on the steps that both pumps have to do.
  drain :
      (n : ℕ) (a : List String) (p : Option String) (b : List String) (q : Option String)
      (t : TailBuffer) (m : List String)
      → IsFaithful max out err (world_of a p b q t m)
      → 2 * length a + length (pending_lines p) + (2 * length b + length (pending_lines q)) ≤ n
      → Finishes (world_of a p b q t m)
  drain zero [] none [] none t m f h =
      (world_of [] none [] none t m, here _, (refl, refl), (refl, refl))
  drain zero a (some l) b q t m f h = absurd (omega (arith, h))
  drain zero (l ∷ a) none b q t m f h = absurd (omega (arith, h))
  drain zero [] none b (some l) t m f h = absurd (omega (arith, h))
  drain zero [] none (l ∷ b) none t m f h = absurd (omega (arith, h))
  drain (suc n) [] none [] none t m f h =
      (world_of [] none [] none t m, here _, (refl, refl), (refl, refl))
  drain (suc n) a (some l) b q t m f h =
      let s = emit_out l a (record { ahead = b; pending = q }) t m in
      after-Step (world_of a (some l) b q t m) (world_of a none b q t (m ++ l ∷ [])) s (
        drain n a none b q t (m ++ l ∷ []) (Step-IsFaithful max out err positive _ _ s f)
          (omega (arith, h)))
  drain (suc n) (l ∷ a) none b q t m f h =
      let (t', e) = add_succeeds (world_of (l ∷ a) none b q t m) l f in
      let s = add_out l a (record { ahead = b; pending = q }) t t' m e in
      after-Step (world_of (l ∷ a) none b q t m) (world_of a (some l) b q t' m) s (
        drain n a (some l) b q t' m (Step-IsFaithful max out err positive _ _ s f)
          (omega (arith, h)))
  drain (suc n) [] none b (some l) t m f h =
      let s = emit_err l b (record { ahead = []; pending = none }) t m in
      after-Step (world_of [] none b (some l) t m) (world_of [] none b none t (m ++ l ∷ [])) s (
        drain n [] none b none t (m ++ l ∷ []) (Step-IsFaithful max out err positive _ _ s f)
          (omega (arith, h)))
  drain (suc n) [] none (l ∷ b) none t m f h =
      let (t', e) = add_succeeds (world_of [] none (l ∷ b) none t m) l f in
      let s = add_err l b (record { ahead = []; pending = none }) t t' m e in
      after-Step (world_of [] none (l ∷ b) none t m) (world_of [] none b (some l) t' m) s (
        drain n [] none b (some l) t' m (Step-IsFaithful max out err positive _ _ s f)
          (omega (arith, h)))

abbrev pub steps : {w v : World} → Reach w v → ℕ
steps (here w) = 0
steps (then_step w v u r s) = suc (steps r)

-- Every step is one of those that the pumps had to do.
Step-work : (w v : World) → Step w v → suc (work v.out + work v.err) ≡ work w.out + work w.err
Step-work _ _ (add_out l rest other tail after emitted a) = omega arith
Step-work _ _ (emit_out l rest other tail emitted) = omega arith
Step-work _ _ (add_err l rest other tail after emitted a) = omega arith
Step-work _ _ (emit_err l rest other tail emitted) = omega arith

steps-work :
    (w v : World) (r : Reach w v) → work v.out + work v.err + steps r ≡ work w.out + work w.err
steps-work _ _ (here w) = omega arith
steps-work _ _ (then_step w v u r s) = omega (arith, steps-work w v r, Step-work v u s)

-- The steps that the two readers have done and those that they have to do are together two for each
-- line, and from every state that they can reach they can go on to the end of both pipes; in
-- particular the tail never runs out of range.
pub Reach-finishes :
    (tail_lines : ℕ) (out err : List String) (w : World)
    (r : Reach (start (tail_limit tail_lines) out err) w)
    → (work w.out + work w.err + steps r ≡ 2 * length out + 2 * length err)
      × ((v : World) × Reach w v × IsDone v.out × IsDone v.err)
Reach-finishes tail_lines out err w r = (
  omega (arith, steps-work (start (tail_limit tail_lines) out err) w r),
  let max = tail_limit tail_lines in
      let positive = tail_limit_positive tail_lines in
      drain max out err positive (work w.out + work w.err) w.out.ahead w.out.pending w.err.ahead
        w.err.pending w.tail w.emitted
        (Reach-IsFaithful max out err positive (start max out err) w r
          (start-IsFaithful max out err positive))
        (omega arith),
)
