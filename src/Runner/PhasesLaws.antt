-- ===== src/Runner/PhasesLaws.antt =====
-- What it says of the test files that a run of scripts/runners/base-parallel-runner.js ends well.
use mathlib.Core.List.{Memᴰ, Perm}
use rayls_sovereign_tests_au.Shared.{
  ℕ, ◌<◌, String, Option, none, some, List, [], ◌∷◌, length, ◌≡◌, refl, ap, inl, inr, Bool-cases,
}
use rayls_sovereign_tests_au.Js.{Result, ok, err, and_then, and_then-ok}
use rayls_sovereign_tests_au.Runner.Queue.{Plan, Queue, Failure, Reach, AllFinished, is_success}
use rayls_sovereign_tests_au.Runner.Queue.Failures.{code_zero}
use rayls_sovereign_tests_au.Runner.Queue.Verdict.{finished-passed}
use rayls_sovereign_tests_au.Runner.OrderLaws.{sort_by_expected_duration-perm}
use rayls_sovereign_tests_au.Runner.Recovery.{await_relayer_recovery}
use rayls_sovereign_tests_au.Runner.Phases.{
  Outside, Settings, Partition, resolve_files, slot_count, worker_env, bootstrap, serial_command,
  serial_result, run_serial, plan_of, parallel_result, run_parallel_with_queue, behind_recovery,
  behind_serial, run_partition, run_resolved, run,
}

result_of : {S : Type 0} (a b : Result (Unit {0}) × S) → some a ≡ some b → a ≡ b
result_of a b h = cc

module _ {S : Type 0} (out : Outside S) (settings : Settings) where
  -- One child ran all serial files and closed with code 0.
  abbrev pub SerialPassed : (flags serial_files : List String) → Type 0
  SerialPassed flags [] = Unit
  SerialPassed flags (f ∷ fs) =
      (u v : S) × (out.run_child (serial_command out settings flags (f ∷ fs))
          (worker_env out settings "serial") u
        ≡ (some 0, v))

  -- The slots of the parallel phase were given the files in some order, and each of them was run by a
  -- child that closed with code 0.
  abbrev pub ParallelPassed : (flags parallel_files : List String) → Type 0
  ParallelPassed flags [] = Unit
  ParallelPassed flags (f ∷ fs) =
      (u : S) × (q : Queue) × Reach (plan_of out settings flags (f ∷ fs) u) q
      × Perm ((plan_of out settings flags (f ∷ fs) u).files) (f ∷ fs)
      × ((k : ℕ)
          → k < length ((plan_of out settings flags (f ∷ fs) u).files)
          → Memᴰ (k, some 0) q.closed)

  -- The slots run to their end.
  abbrev pub SlotsSettle : Type 0
  SlotsSettle =
      (p : Plan) (s : S) → Reach p (out.run_slots p s).0 × AllFinished p (out.run_slots p s).0

  serial-code :
      (r : Option ℕ × S) (t : S) → serial_result out settings r ≡ (ok tt, t) → r.0 ≡ some 0
  serial-code (code, s) t h = elim (Bool-cases (is_success code)) [
    | inl e ↦ code_zero code e
    | inr e ↦ absurd (let h' = rw e at h in cc)
  ]

  run_serial-passed :
      (flags files : List String) (s t : S)
      → run_serial out settings flags files s ≡ (ok tt, t)
      → SerialPassed flags files
  unfolding run_serial
  run_serial-passed flags [] s t h = tt
  run_serial-passed flags (f ∷ fs) s t h =
      let r =
        out.run_child (serial_command out settings flags (f ∷ fs))
          (worker_env out settings "serial") s in
      (s, r.1, ap (λ c. (c, r.1)) (serial-code r t h))

  no_failures :
      (fs : List Failure) (s t : S) → parallel_result out settings fs s ≡ (ok tt, t) → length fs ≡ 0
  no_failures [] s t h = refl
  no_failures (f ∷ fs) s t h = absurd (cc)

  run_parallel-passed :
      (flags files : List String) (s t : S)
      → SlotsSettle
      → 0 < slot_count settings.worker_count
      → run_parallel_with_queue out settings flags files s ≡ (ok tt, t)
      → ParallelPassed flags files
  unfolding run_parallel_with_queue plan_of
  run_parallel-passed flags [] s t settle slots h = tt
  run_parallel-passed flags (f ∷ fs) s t settle slots h =
      let p = plan_of out settings flags (f ∷ fs) s in
      let r = out.run_slots p s in
      (
        s,
        r.0,
        (settle p s).0,
        (sort_by_expected_duration-perm (out.report s) (f ∷ fs)).0,
        finished-passed p r.0 slots (settle p s).0 (settle p s).1
            (no_failures (r.0).failures r.1 t h),
      )

  behind_recovery-passed :
      (flags files : List String) (o : Option S) (t : S)
      → SlotsSettle
      → 0 < slot_count settings.worker_count
      → behind_recovery out settings flags files o ≡ some (ok tt, t)
      → ParallelPassed flags files
  unfolding behind_recovery
  behind_recovery-passed flags files none t settle slots h = absurd (cc)
  behind_recovery-passed flags files (some s) t settle slots h =
      let (done, u, e, rest) =
        and_then-ok (run_parallel_with_queue out settings flags files s)
          (λ done t. (ok tt, out.merge_reports t)) tt t (result_of _ _ h) in
      run_parallel-passed flags files s u settle slots e

  behind_serial-passed :
      (fuel : ℕ) (flags : List String) (parts : Partition) (s t : S) (r : Result (Unit {0}) × S)
      → SlotsSettle
      → 0 < slot_count settings.worker_count
      → and_then (bootstrap out settings s) (λ done. run_serial out settings flags parts.serial) ≡ r
      → behind_serial out settings fuel flags parts.parallel r ≡ some (ok tt, t)
      → SerialPassed flags parts.serial × ParallelPassed flags parts.parallel
  unfolding behind_serial await_relayer_recovery
  behind_serial-passed fuel flags parts s t (err e, u) settle slots same h = absurd (cc)
  behind_serial-passed fuel flags parts s t (ok done, u) settle slots same h =
      let (b, v, e, rest) =
        and_then-ok (bootstrap out settings s) (λ done. run_serial out settings flags parts.serial)
          done u same in
      (
        run_serial-passed flags parts.serial v u rest,
        behind_recovery-passed flags parts.parallel
            (await_relayer_recovery out.docker settings.min_uptime_ms fuel u) t settle slots h,
      )

  run_resolved-passed :
      (fuel : ℕ) (partition : List String → Partition) (r : Result (List String × List String))
      (s t : S)
      → SlotsSettle
      → 0 < slot_count settings.worker_count
      → run_resolved out settings fuel partition r s ≡ some (ok tt, t)
      → (files flags : List String) × (r ≡ ok (files, flags))
        × SerialPassed flags ((partition files).serial)
        × ParallelPassed flags ((partition files).parallel)
  unfolding run_partition
  run_resolved-passed fuel partition (err e) s t settle slots h = absurd (cc)
  run_resolved-passed fuel partition (ok (files, flags)) s t settle slots h =
      let passed = behind_serial-passed fuel flags (partition files) s t _ settle slots refl h in
      (files, flags, refl, passed.0, passed.1)

  -- If the slots run to their end, there is at least one slot, and a run ends well, then its files were
  -- resolved; the serial ones among them were run by one child that closed with code 0; and each of the
  -- parallel ones was run by a child of the queue that closed with code 0.
  pub run-passed :
      (fuel : ℕ) (partition : List String → Partition) (s t : S)
      → SlotsSettle
      → 0 < slot_count settings.worker_count
      → run out settings fuel partition s ≡ some (ok tt, t)
      → (files flags : List String) × (resolve_files out.script out.glob settings
          ≡ ok (files, flags))
        × SerialPassed flags ((partition files).serial)
        × ParallelPassed flags ((partition files).parallel)
  unfolding run
  run-passed fuel partition s t =
      run_resolved-passed fuel partition (resolve_files out.script out.glob settings) s t
