-- ===== src/SpawnRegistry/Wipe.antt =====
-- spawnregistery.c: what handlers ask for, and the entries that `unlisten` wipes.
use spawny.Base.{
  ℕ, suc, ◌≡◌, refl, ap, sym, ◌∙◌, true, false, List, [], ◌∷◌, ◌++◌, none, some, ◌==◌, arith, map,
  if◌then◌else◌, length, get_elem?, All, append_assoc, append-nil, length-append,
}
use spawny.SpawnRegistry.{
  Waiting, Registry, Request, listens, unlistens, zeroed, matches, zero_matching, listen, request,
  requests,
}

-- The entries that requests to listen add.
abbrev pub asked_entries : List Request → List Waiting
asked_entries [] = []
asked_entries (listens pid handler ptr ∷ qs) =
    record { pid = pid; handler = handler; data_ptr = ptr } ∷ asked_entries qs
asked_entries (unlistens pid handler ptr ∷ qs) = asked_entries qs

-- Entries for another process, with a handler.
abbrev pub Elsewhere : ℕ → List Waiting → Type 0
Elsewhere pid = All (λ w. ((w.pid == pid) ≡ false) × ((w.handler == 0) ≡ false))

-- The requests only listen, and to other processes: what a handler does that starts a new child.
abbrev pub OtherListens : ℕ → List Request → Type 0
OtherListens pid [] = Unit {0}
OtherListens pid (listens p h d ∷ qs) =
    ((p == pid) ≡ false) × ((h == 0) ≡ false) × OtherListens pid qs
OtherListens pid (unlistens p h d ∷ qs) = ⊥

-- Every entry has a handler, and none for the process is there twice.
abbrev pub Apart : ℕ → List Waiting → Type 0
Apart pid [] = Unit {0}
Apart pid (w ∷ ws) =
    ((w.handler == 0) ≡ false)
    × All (λ v. matches pid w.handler w.data_ptr v ≡ false) ws
    × Apart pid ws

pub asked-Elsewhere :
    (pid : ℕ) (qs : List Request) → OtherListens pid qs → Elsewhere pid (asked_entries qs)
asked-Elsewhere pid [] h = tt
asked-Elsewhere pid (listens p h d ∷ qs) (a, b, c) = ((a, b), asked-Elsewhere pid qs c)
asked-Elsewhere pid (unlistens p h d ∷ qs) x = elim x [ ]

pub requests-listens :
    (pid : ℕ) (qs : List Request) (r : Registry)
    → OtherListens pid qs
    → requests qs r ≡ some (record r { pending_process = r.pending_process ++ asked_entries qs })
unfolding requests request listen
requests-listens pid [] r h =
    ap some (λ i. record r { pending_process = sym (append-nil r.pending_process) i })
requests-listens pid (listens p h d ∷ qs) r (a, b, c) =
    requests-listens pid qs _ c
    ∙ ap some (λ i. record r {
      pending_process =
          append_assoc r.pending_process (record { pid = p; handler = h; data_ptr = d } ∷ [])
            (asked_entries qs) i;
    })
requests-listens pid (unlistens p h d ∷ qs) r x = elim x [ ]

pub zero_matching-append :
    (pid h d : ℕ) (xs ys : List Waiting)
    → zero_matching pid h d (xs ++ ys) ≡ zero_matching pid h d xs ++ zero_matching pid h d ys
unfolding zero_matching
zero_matching-append pid h d [] ys = refl
zero_matching-append pid h d (x ∷ xs) ys = rw (zero_matching-append pid h d xs ys)

pub zero_matching_none :
    (pid h d : ℕ) (xs : List Waiting)
    → All (λ v. matches pid h d v ≡ false) xs
    → zero_matching pid h d xs ≡ xs
unfolding zero_matching
zero_matching_none pid h d [] p = refl
zero_matching_none pid h d (x ∷ xs) p = rw (p.0, zero_matching_none pid h d xs p.1)

-- No entry of the list is for the process.
abbrev pub Others : ℕ → List Waiting → Type 0
Others pid = All (λ w. (w.pid == pid) ≡ false)

pub Others-unmatched :
    (pid h d : ℕ) (xs : List Waiting) → Others pid xs → All (λ v. matches pid h d v ≡ false) xs
Others-unmatched pid h d [] p = tt
Others-unmatched pid h d (x ∷ xs) p = (rw p.0, Others-unmatched pid h d xs p.1)

pub Elsewhere-Others : (pid : ℕ) (xs : List Waiting) → Elsewhere pid xs → Others pid xs
Elsewhere-Others pid [] p = tt
Elsewhere-Others pid (x ∷ xs) p = (p.0.0, Elsewhere-Others pid xs p.1)

pub get_elem?-middle :
    (xs ys : List Waiting) (y : Waiting) → get_elem? (xs ++ y ∷ ys) (length xs) ≡ some y
get_elem?-middle [] ys y = refl
get_elem?-middle (x ∷ xs) ys y = get_elem?-middle xs ys y

pub get_elem?-end : (xs : List Waiting) → get_elem? xs (length xs) ≡ none
get_elem?-end [] = refl
get_elem?-end (x ∷ xs) = get_elem?-end xs

pub next_index : (done : List Waiting) (x : Waiting) → length (done ++ x ∷ []) ≡ suc (length done)
next_index done x = omega (arith, length-append done (x ∷ []))

-- The entries for the process, told and wiped.
abbrev pub wiped : ℕ → List Waiting → List Waiting
wiped pid = map (λ w. if w.pid == pid then zeroed else w)

abbrev pub evaluating : List Waiting → Registry
evaluating ws = record { pending_process = ws; eval_mode = true }

-- Wiping an entry that stands in front of others which do not match.
pub wipe :
    (pid : ℕ) (done ws new : List Waiting) (w : Waiting)
    → (w.pid == pid) ≡ true
    → Others pid done
    → All (λ v. matches pid w.handler w.data_ptr v ≡ false) ws
    → Others pid new
    → zero_matching pid w.handler w.data_ptr (done ++ (w ∷ (ws ++ new)))
      ≡ (done ++ zeroed ∷ []) ++ (ws ++ new)
unfolding zero_matching
wipe pid done ws new w hit d apart n =
    let self : matches pid w.handler w.data_ptr w ≡ true = ground arith in
    let h = w.handler in
    let p = w.data_ptr in
    rw
      (
        zero_matching-append pid h p done (w ∷ (ws ++ new)),
        zero_matching_none pid h p done (Others-unmatched pid h p done d),
        self,
        zero_matching-append pid h p ws new,
        zero_matching_none pid h p ws apart,
        zero_matching_none pid h p new (Others-unmatched pid h p new n),
      )
      (sym (append_assoc done (zeroed ∷ []) (ws ++ new)))
