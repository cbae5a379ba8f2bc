-- ===== src/Greeter/Restarts.antt =====
-- greeter.c: how often a greeter is started again, and what is left when it never comes up.
use spawny.Base.{
  ℕ, zero, suc, ◌+◌, ◌-◌, ◌≤◌, ◌<◌, ◌≡◌, inl, inr, refl, true, false, Option, none, some, Text,
  arith, ltb, Bool-cases,
}
use spawny.Greeter.{
  null, live, freed, SeatGreeter, Effects, Spawned, no_pipe, failure, child, Run, returns, faults,
  out_of_fuel, restart, seat_greeter_pid_get, run_reset, session_of, activate, greeter_done,
  greeter_start_done, fallback_run_generation,
}

-- No run of the greeter is past its fifth restart while it starts or runs; with none, one more is
-- counted.
pub record IsBounded (g : SeatGreeter) : Type 0 where
  pub counted : g.run_gen ≤ fallback_run_generation + 1
  pub starting : (pid : ℕ) → g.run_try ≡ live pid → g.run_gen ≤ fallback_run_generation
  pub running : (pid : ℕ) → g.run_pid ≡ some pid → g.run_gen ≤ fallback_run_generation

module _ (session_get : ℕ → Option Text) (spawns : ℕ → Spawned) where
  -- For a greeter that is neither starting nor running, activation ends: after at most one spawn for
  -- each generation up to the last, and with the bound kept.
  abbrev pub Settled : SeatGreeter → Effects → Run (SeatGreeter × Effects) → Type 0
  Settled g fx (returns (h, gx)) =
      IsBounded h
      × (g.run_gen ≤ h.run_gen)
      × (gx.spawned ≤ fx.spawned + (fallback_run_generation + 1 - g.run_gen))
      × (h.seat ≡ g.seat)
  Settled g fx faults = ⊥
  Settled g fx out_of_fuel = ⊥

  -- The greeter as `_greeter_run_reset` and the count leave it for the next start.
  abbrev pub next_run : SeatGreeter → SeatGreeter
  next_run g = record g { run_gen = g.run_gen + 1; run_try = null; run_pid = none }

  abbrev once_more : Effects → Effects
  once_more fx = record fx { spawned = fx.spawned + 1 }

  failed_value :
      (fuel : ℕ) (g h : SeatGreeter) (fx gx : Effects)
      → g.run_gen ≤ fallback_run_generation
      → g.run_try ≡ null
      → g.run_pid ≡ none
      → spawns fx.spawned ≡ failure
      → activate session_get spawns fuel (next_run g) (once_more fx) ≡ returns (h, gx)
      → activate session_get spawns (suc fuel) g fx ≡ returns (record h { run_try = freed }, gx)
  failed_value fuel g h fx gx le t p s e =
      let room : ltb fallback_run_generation g.run_gen ≡ false = ground arith in
      unfold activate session_of run_reset in ground arith

  over_value :
      (fuel : ℕ) (g : SeatGreeter) (fx : Effects)
      → ltb fallback_run_generation g.run_gen ≡ true
      → g.run_try ≡ null
      → g.run_pid ≡ none
      → activate session_get spawns (suc fuel) g fx ≡ returns (g, fx)
  unfolding activate session_of
  over_value fuel g fx over t p = ground arith

  freed_faults :
      (fuel : ℕ) (h : SeatGreeter) (gx : Effects)
      → activate session_get spawns (suc fuel) (record h { run_try = freed }) gx ≡ faults
  unfolding activate session_of
  freed_faults fuel h gx = refl

  activate_failed :
      (fuel : ℕ) (g : SeatGreeter) (fx : Effects) (r : Run (SeatGreeter × Effects))
      → g.run_gen ≤ fallback_run_generation
      → g.run_try ≡ null
      → g.run_pid ≡ none
      → spawns fx.spawned ≡ failure
      → activate session_get spawns fuel (next_run g) (once_more fx) ≡ r
      → Settled (next_run g) (once_more fx) r
      → Settled g fx (activate session_get spawns (suc fuel) g fx)
  activate_failed fuel g fx (returns (h, gx)) le t p s e (b, grows, few, same) =
      rw (failed_value fuel g h fx gx le t p s e) (
        record { counted = b.counted; starting = λ pid q. cc; running = b.running },
        omega arith,
        omega arith,
        same,
      )
  activate_failed fuel g fx faults le t p s e x = elim x [ ]
  activate_failed fuel g fx out_of_fuel le t p s e x = elim x [ ]

  activate_idle :
      (fuel : ℕ) (g : SeatGreeter) (fx : Effects)
      → fallback_run_generation + 1 < fuel + g.run_gen
      → g.run_gen ≤ fallback_run_generation + 1
      → g.run_try ≡ null
      → g.run_pid ≡ none
      → Settled g fx (activate session_get spawns fuel g fx)
  activate_idle zero g fx f le t p = absurd (omega arith)
  activate_idle (suc fuel) g fx f le t p =
      elim (Bool-cases (ltb fallback_run_generation g.run_gen)) [
        | inl over ↦ rw (over_value fuel g fx over t p) (
          record { counted = le; starting = λ pid q. cc; running = λ pid q. cc },
          omega arith,
          omega arith,
          refl,
        )
        | inr room ↦
            spawned (spawns fx.spawned) refl (ground arith) (
              activate_idle fuel (next_run g) (once_more fx) (omega arith) (ground arith) refl refl)
      ]
    where
      spawned :
          (how : Spawned)
          → spawns fx.spawned ≡ how
          → g.run_gen ≤ fallback_run_generation
          → Settled
              (next_run g)
              (once_more fx)
              (activate session_get spawns fuel (next_run g) (once_more fx))
          → Settled g fx (activate session_get spawns (suc fuel) g fx)
      spawned failure s room ih = activate_failed fuel g fx _ room t p s refl ih
      spawned no_pipe s room ih =
          let test : ltb fallback_run_generation g.run_gen ≡ false = ground arith in
          let value : activate session_get spawns (suc fuel) g fx
              ≡ returns (record g { run_try = null }, once_more fx) =
            unfold activate session_of in ground arith in
          rw value (
            record { counted = le; starting = λ q e. cc; running = λ q e. cc },
            omega arith,
            omega arith,
            refl,
          )
      spawned (child pid) s room ih =
          let test : ltb fallback_run_generation g.run_gen ≡ false = ground arith in
          let value : activate session_get spawns (suc fuel) g fx
              ≡ returns (record g { run_try = live pid }, once_more fx) =
            unfold activate session_of in ground arith in
          rw value (
            record { counted = le; starting = λ q e. room; running = λ q e. cc },
            omega arith,
            omega arith,
            refl,
          )

  abbrev pub Restarted : SeatGreeter → Effects → Run (Option SeatGreeter × Effects) → Type 0
  Restarted g fx (returns (some h, gx)) =
      IsBounded h
      × (g.run_gen < h.run_gen)
      × (gx.spawned ≤ fx.spawned + (fallback_run_generation - g.run_gen))
      × (h.seat ≡ g.seat)
  Restarted g fx (returns (none, gx)) = ⊥
  Restarted g fx faults = ⊥
  Restarted g fx out_of_fuel = ⊥

  Restarted-of :
      (g : SeatGreeter) (fx : Effects) (r : Run (SeatGreeter × Effects))
      (q : Run (Option SeatGreeter × Effects))
      → Settled (next_run g) fx r
      → g.run_gen ≤ fallback_run_generation
      → q ≡ (elim r [
        | returns (h, gx) ↦ returns (some h, gx)
        | faults ↦ faults
        | out_of_fuel ↦ out_of_fuel
      ])
      → Restarted g fx q
  Restarted-of g fx (returns (h, gx)) q (b, grows, few, same) le e =
      rw e (b, omega arith, omega arith, same)
  Restarted-of g fx faults q x le e = elim x [ ]
  Restarted-of g fx out_of_fuel q x le e = elim x [ ]

  -- A running greeter that dies and is not meant to end, with its count in bounds and a pid that can
  -- be read, as the message to the log does: the handler ends, whatever the spawns do, after at most
  -- as many of them as generations are left; the count goes up, and no greeter starts or runs past
  -- the last generation.
  pub greeter_done-Restarted :
      (g : SeatGreeter) (fx : Effects) (pid : ℕ) (was : Option ℕ)
      → IsBounded g
      → g.end ≡ false
      → g.run_pid ≡ some pid
      → seat_greeter_pid_get g ≡ returns was
      → Restarted g fx (greeter_done session_get spawns 7 g fx)
  greeter_done-Restarted g fx pid was b e p reads =
      let le = b.running pid p in
      Restarted-of g fx (activate session_get spawns 7 (next_run g) fx) _
        (activate_idle 7 (next_run g) fx (omega arith) (omega arith) refl refl) le
        (unfold greeter_done restart run_reset in ground (arith, e, reads))

  -- A starting greeter with its count in bounds whose try fails after `spawnservice_spawn`
  -- returned: the handler ends, whatever the spawns do, after at most as many of them as
  -- generations are left after this one, and the count stays in bounds.
  pub greeter_start_done-Settled :
      (g : SeatGreeter) (fx : Effects) (pid : ℕ)
      → IsBounded g
      → g.run_try ≡ live pid
      → Settled (next_run g) fx (greeter_start_done session_get spawns 7 false g fx)
  unfolding greeter_start_done
  greeter_start_done-Settled g fx pid b t =
      let le = b.starting pid t in
      rw (t, seat_greeter_pid_get)
        (unfold restart run_reset in
          activate_idle 7 (next_run g) fx (omega arith) (omega arith) refl refl)

  -- Where every spawn fails before `spawnservice_spawn` returns, an idle greeter at or below the
  -- last generation and enough fuel: the activation uses up the generations that are left and
  -- leaves the address of a freed try behind, which the next activation of the seat reads.
  pub activate_never_up :
      (n fuel : ℕ) (g : SeatGreeter) (fx : Effects)
      → ((k : ℕ) → spawns k ≡ failure)
      → n + g.run_gen ≡ fallback_run_generation
      → n + 1 < fuel
      → g.run_try ≡ null
      → g.run_pid ≡ none
      → (h : SeatGreeter) × (gx : Effects) × (activate session_get spawns fuel g fx
          ≡ returns (h, gx))
        × (h.run_gen ≡ fallback_run_generation + 1)
        × (h.run_try ≡ freed)
        × (gx.spawned ≡ fx.spawned + (n + 1))
        × (activate session_get spawns fuel h gx ≡ faults)
  activate_never_up zero zero g fx all e f t p = absurd (omega arith)
  activate_never_up zero (suc zero) g fx all e f t p = absurd (omega arith)
  activate_never_up zero (suc (suc fuel)) g fx all e f t p =
      let last = over_value fuel (next_run g) (once_more fx) (ground arith) refl refl in
      (
        record (next_run g) { run_try = freed },
        once_more fx,
        failed_value (suc fuel) g (next_run g) fx (once_more fx) (omega arith) t p (all fx.spawned)
            last,
        omega arith,
        refl,
        omega arith,
        freed_faults (suc fuel) (next_run g) (once_more fx),
      )
  activate_never_up (suc n) zero g fx all e f t p = absurd (omega arith)
  activate_never_up (suc n) (suc zero) g fx all e f t p = absurd (omega arith)
  activate_never_up (suc n) (suc (suc fuel)) g fx all e f t p =
      let (h, gx, value, gen, tr, count, dead) =
        activate_never_up n (suc fuel) (next_run g) (once_more fx) all (omega arith) (omega arith)
          refl refl in
      (
        record h { run_try = freed },
        gx,
        failed_value (suc fuel) g h fx gx (omega arith) t p (all fx.spawned) value,
        gen,
        refl,
        omega arith,
        freed_faults (suc fuel) h gx,
      )
