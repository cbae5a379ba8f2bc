-- ===== src/SpawnRegistry/Eval.antt =====
-- spawnregistery.c: whom `spawnregistery_eval` tells of a dead child.
use spawny.Base.{
  ℕ, zero, suc, ◌+◌, ◌<◌, ◌≡◌, refl, ap, sym, subst, ◌∙◌, true, false, not, List, [], ◌∷◌, ◌++◌,
  some, ◌==◌, arith, if◌then◌else◌, length, keep, Bool-cases, inl, inr, All, append_assoc,
  append-nil, length-append, All-append,
}
use spawny.SpawnRegistry.{
  Waiting, Registry, Request, zeroed, matches, unlisten, notify, notify_loop, eval_loop,
  spawnregistery_eval,
}
use spawny.SpawnRegistry.Cleanup.{has_handler, cleanup_all_lem}
use spawny.SpawnRegistry.Wipe.{
  asked_entries, Elsewhere, OtherListens, Apart, asked-Elsewhere, requests-listens, Others,
  Elsewhere-Others, get_elem?-middle, get_elem?-end, next_index, wiped, evaluating, wipe,
}

module _ {W : Type 0} (react : ℕ → ℕ → ℕ → ℕ → W → W × List Request) where
  -- The calls that the listeners of a process get, in order: the world after them, and the entries
  -- that they add.
  abbrev pub served : ℕ → ℕ → List Waiting → W → W × List Waiting
  served pid status [] world = (world, [])
  served pid status (w ∷ ws) world =
      let called = react w.handler w.data_ptr status pid world in
      let next = served pid status ws (if w.pid == pid then called.0 else world) in
      (next.0, (if w.pid == pid then asked_entries called.1 else []) ++ next.1)

  scan-Others :
      (fuel pid status : ℕ) (done new : List Waiting) (world : W)
      → Others pid new
      → length new < fuel
      → notify_loop react fuel pid status (length done) (world, evaluating (done ++ new))
        ≡ some (world, evaluating (done ++ new))
  unfolding notify_loop notify
  scan-Others zero pid status done new world p h = elim h [ ]
  scan-Others (suc fuel) pid status done [] world p h =
      subst
        (λ (t : List Waiting).
          notify_loop react (suc fuel) pid status (length done) (world, evaluating t)
          ≡ some (world, evaluating t))
        (sym (append-nil done)) (rw (get_elem?-end done, notify_loop))
  scan-Others (suc fuel) pid status done (x ∷ new) world p h =
      let on = scan-Others fuel pid status (done ++ x ∷ []) new world p.1 (omega arith) in
      let at : length (done ++ x ∷ []) ≡ suc (length done) =
        omega (arith, length-append done (x ∷ [])) in
      let on' = rw (append_assoc done (x ∷ []) new, at) at on in
      rw (get_elem?-middle done new x, notify_loop) (rw p.0 on')

  -- One listener of the process is told: what it asks is added, and its own entry is wiped.
  notify_hit :
      (pid status : ℕ) (done ws new : List Waiting) (w : Waiting) (world : W)
      → (w.pid == pid) ≡ true
      → (w.handler == 0) ≡ false
      → Others pid done
      → All (λ v. matches pid w.handler w.data_ptr v ≡ false) ws
      → Others pid new
      → OtherListens pid (react w.handler w.data_ptr status pid world).1
      → notify react pid status w (world, evaluating (done ++ (w ∷ (ws ++ new))))
        ≡ some (
          (react w.handler w.data_ptr status pid world).0,
          evaluating (
              (done ++ zeroed ∷ [])
              ++ (ws ++ (new ++ asked_entries (react w.handler w.data_ptr status pid world).1))),
        )
  unfolding notify unlisten
  notify_hit pid status done ws new w world hit live d apart n asked =
      let qs = (react w.handler w.data_ptr status pid world).1 in
      let es = asked_entries qs in
      let n' =
        All-append (λ v. (v.pid == pid) ≡ false) new es n
          (Elsewhere-Others pid es (asked-Elsewhere pid qs asked)) in
      let regroup : (done ++ (w ∷ (ws ++ new))) ++ es ≡ done ++ (w ∷ (ws ++ (new ++ es))) =
        append_assoc done (w ∷ (ws ++ new)) es
        ∙ ap (λ (t : List Waiting). done ++ (w ∷ t)) (append_assoc ws new es) in
      rw (
        hit,
        live,
        requests-listens pid qs (evaluating (done ++ (w ∷ (ws ++ new)))) asked,
        regroup,
        wipe pid done ws (new ++ es) w hit d apart n',
      )

  -- What every handler that is called asks: only to listen, and to other processes.
  abbrev pub Quiet : ℕ → Type 0
  Quiet pid =
      (handler ptr status : ℕ) (world : W) → OtherListens pid (react handler ptr status pid world).1

  loop_step :
      (fuel pid status : ℕ) (done tail : List Waiting) (w : Waiting) (world : W) (s' : W × Registry)
      → notify react pid status w (world, evaluating (done ++ w ∷ tail)) ≡ some s'
      → notify_loop react (suc fuel) pid status (length done) (world, evaluating (done ++ w ∷ tail))
        ≡ notify_loop react fuel pid status (suc (length done)) s'
  unfolding notify_loop
  loop_step fuel pid status done tail w world s' e =
      rw (get_elem?-middle done tail w, notify_loop) (rw e)

  notify_miss :
      (pid status : ℕ) (w : Waiting) (s : W × Registry)
      → (w.pid == pid) ≡ false
      → notify react pid status w s ≡ some s
  unfolding notify
  notify_miss pid status w s miss = rw miss

  -- The list behind one round, seen from the next one.
  shift :
      (done rest new asked last : List Waiting) (x : Waiting)
      → (done ++ x ∷ []) ++ (rest ++ ((new ++ asked) ++ last))
        ≡ done ++ (x ∷ (rest ++ (new ++ (asked ++ last))))
  shift done rest new asked last x =
      append_assoc done (x ∷ []) _
      ∙ ap (λ (t : List Waiting). done ++ (x ∷ (rest ++ t))) (append_assoc new asked last)

  loop_lem :
      (fuel pid status : ℕ) (done rest new : List Waiting) (world : W)
      → Quiet pid
      → (0 == pid) ≡ false
      → Others pid done
      → Apart pid rest
      → Others pid new
      → length rest + length new + length (served pid status rest world).1 < fuel
      → notify_loop react fuel pid status (length done) (world, evaluating (done ++ (rest ++ new)))
        ≡ some (
          (served pid status rest world).0,
          evaluating (done ++ (wiped pid rest ++ (new ++ (served pid status rest world).1))),
        )
  loop_lem zero pid status done rest new world quiet pos d apart n lt = absurd (omega arith)
  loop_lem (suc fuel) pid status done [] new world quiet pos d apart n lt =
      rw (append-nil new) (scan-Others (suc fuel) pid status done new world n (omega arith))
  loop_lem (suc fuel) pid status done (w ∷ rest) new world quiet pos d (live, differ, apart) n lt =
      elim (Bool-cases (w.pid == pid)) [
        | inl hit ↦
            let called = react w.handler w.data_ptr status pid world in
            let es = asked_entries called.1 in
            let asked = quiet w.handler w.data_ptr status world in
            let told = notify_hit pid status done rest new w world hit live d differ n asked in
            let ih =
              loop_lem fuel pid status (done ++ zeroed ∷ []) rest (new ++ es) called.0 quiet pos
                (All-append (λ v. (v.pid == pid) ≡ false) done (zeroed ∷ []) d (pos, tt)) apart
                (All-append (λ v. (v.pid == pid) ≡ false) new es n
                  (Elsewhere-Others pid es (asked-Elsewhere pid called.1 asked)))
                (omega (
                  arith,
                  rw hit at lt,
                  length-append new es,
                  length-append es (served pid status rest called.0).1,
                )) in
            rw hit (
              loop_step fuel pid status done (rest ++ new) w world _ told
              ∙ (rw (← next_index done zeroed) ih)
              ∙ ap (λ (t : List Waiting). some ((served pid status rest called.0).0, evaluating t))
                  (shift done (wiped pid rest) new es (served pid status rest called.0).1 zeroed))
        | inr miss ↦
            let last = (served pid status rest world).1 in
            let ih =
              loop_lem fuel pid status (done ++ w ∷ []) rest new world quiet pos
                (All-append (λ v. (v.pid == pid) ≡ false) done (w ∷ []) d (miss, tt)) apart n
                (omega (arith, rw miss at lt)) in
            rw miss (
              loop_step fuel pid status done (rest ++ new) w world _
                (notify_miss pid status w _ miss)
              ∙ (rw (← next_index done w) (rw (append_assoc done (w ∷ []) (rest ++ new)) at ih))
              ∙ ap (λ (t : List Waiting). some ((served pid status rest world).0, evaluating t))
                  (append_assoc done (w ∷ []) _))
      ]

  served-Elsewhere :
      (pid status : ℕ) (ws : List Waiting) (world : W)
      → Quiet pid
      → Elsewhere pid (served pid status ws world).1
  served-Elsewhere pid status [] world quiet = tt
  served-Elsewhere pid status (w ∷ ws) world quiet = elim (Bool-cases (w.pid == pid)) [
    | inl hit ↦ rw hit (
        All-append (λ v. ((v.pid == pid) ≡ false) × ((v.handler == 0) ≡ false)) _ _
          (asked-Elsewhere pid _ (quiet w.handler w.data_ptr status world))
          (served-Elsewhere pid status ws (react w.handler w.data_ptr status pid world).0 quiet))
    | inr miss ↦ rw miss (served-Elsewhere pid status ws world quiet)
  ]

  keep_live : (pid : ℕ) (ns : List Waiting) → Elsewhere pid ns → keep has_handler ns ≡ ns
  keep_live pid [] h = refl
  keep_live pid (n ∷ ns) h = ground (arith, keep_live pid ns h.1)

  keep-wiped :
      (pid : ℕ) (ws ns : List Waiting)
      → Apart pid ws
      → Elsewhere pid ns
      → keep has_handler (wiped pid ws ++ ns) ≡ keep (λ w. not (w.pid == pid)) ws ++ ns
  keep-wiped pid [] ns a h = keep_live pid ns h
  keep-wiped pid (w ∷ ws) ns (live, _, a) h = ground (arith, keep-wiped pid ws ns a h)

  -- For one child that died, a registry in which every entry has a handler and no listener of the
  -- child stands twice, handlers that ask for nothing but to listen to other processes, and more
  -- fuel than there are entries before and added: the evaluation ends; the listeners of the child,
  -- and no others, are called, once each and in order; they are gone from the registry after, the
  -- others stay in order, and behind them stand the listeners that the handlers added.
  pub eval_served :
      (fuel pid status : ℕ) (ws : List Waiting) (world : W)
      → Quiet pid
      → (0 == pid) ≡ false
      → Apart pid ws
      → length ws + length (served pid status ws world).1 < fuel
      → spawnregistery_eval react fuel
          ((pid, status) ∷ [])
          (world, record { pending_process = ws; eval_mode = false })
        ≡ some (
          (served pid status ws world).0,
          record {
            pending_process = keep (λ w. not (w.pid == pid)) ws ++ (served pid status ws world).1;
            eval_mode = false;
          },
        )
  unfolding spawnregistery_eval eval_loop
  eval_served fuel pid status ws world quiet pos apart lt =
      let last = (served pid status ws world).1 in
      let looped =
        loop_lem fuel pid status [] ws [] world quiet pos tt apart tt (omega (arith, lt)) in
      let looped' = rw (append-nil ws) at looped in
      rw (
        looped',
        cleanup_all_lem (wiped pid ws ++ last),
        keep-wiped pid ws last apart (served-Elsewhere pid status ws world quiet),
      )
