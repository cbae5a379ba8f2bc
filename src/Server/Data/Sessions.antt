-- ===== src/Server/Data/Sessions.antt =====
-- server.c: what the loop of `_load_sessions` leaves in its array.
use spawny.Base.{
  ℕ, zero, suc, ◌+◌, ◌-◌, ◌*◌, ◌≤◌, ◌<◌, ◌≡◌, refl, ap, sym, subst, ◌∙◌, true, List, [], ◌∷◌, ◌++◌,
  map, Option, none, some, Text, arith, take, length, ◌==◌, if◌then◌else◌, is_some, ◌>>=◌,
  Bool-cases, Option-cases, inl, inr, append_assoc, append-nil, All, All-append,
}
use spawny.UserDb.Files.{Passwd}
use spawny.Sessions.{Details, Fetch, undefined, refused, got, session_enumerate, session_details}
use spawny.Client.{ProtoSession}
use spawny.Server.Data.{
  getpwuid, set, realloc, nulls, all_some, Host, start_user, session_step, sessions_loop,
  load_sessions,
}

module _ {ℓ} {A : Type ℓ} where
  -- A write behind `n` kept elements.
  set_kept :
      (xs : List A) (n : ℕ) (v : A)
      → n < length xs
      → (ys : List A) × (set xs n v ≡ some ys)
        × (length ys ≡ length xs)
        × (take n ys ≡ take n xs)
        × (take (n + 1) ys ≡ take n xs ++ v ∷ [])
  unfolding set
  set_kept [] n v h = elim h [ ]
  set_kept (x ∷ xs) zero v h = (v ∷ xs, refl, refl, refl, refl)
  set_kept (x ∷ xs) (suc n) v h =
      let (ys, e, l, k, t) = set_kept xs n v (omega arith) in
      let s : suc n + 1 ≡ suc (n + 1) = omega arith in
      (x ∷ ys, rw e, ap suc l, ap (◌∷◌ x) k, rw s (ap (◌∷◌ x) t))

  length-realloc : (junk : ℕ → A) (xs : List A) (m : ℕ) → length (realloc junk xs m) ≡ m
  unfolding realloc
  length-realloc junk xs zero = refl
  length-realloc junk [] (suc m) = ap suc (length-realloc junk [] m)
  length-realloc junk (x ∷ xs) (suc m) = ap suc (length-realloc junk xs m)

  take-realloc :
      (junk : ℕ → A) (xs : List A) (n m : ℕ)
      → n ≤ m
      → n ≤ length xs
      → take n (realloc junk xs m) ≡ take n xs
  unfolding realloc
  take-realloc junk xs zero m h k = refl
  take-realloc junk [] (suc n) m h k = absurd (omega arith)
  take-realloc junk (x ∷ xs) (suc n) zero h k = absurd (omega arith)
  take-realloc junk (x ∷ xs) (suc n) (suc m) h k =
      ap (◌∷◌ x) (take-realloc junk xs n m (omega arith) (omega arith))

  all_some-map : (xs : List A) → all_some (map (λ x. some x) xs) ≡ some xs
  unfolding all_some
  all_some-map [] = refl
  all_some-map (x ∷ xs) = rw (all_some-map xs)

  map-some-append :
      (xs : List A) (v : A) → map (λ x. some x) (xs ++ v ∷ []) ≡ map (λ x. some x) xs ++ some v ∷ []
  map-some-append [] v = refl
  map-some-append (x ∷ xs) v = ap (◌∷◌ (some x)) (map-some-append xs v)

length-nulls {ℓ} : (A : Type ℓ) (n : ℕ) → length (nulls {A = A} n) ≡ n
unfolding nulls
length-nulls A zero = refl
length-nulls A (suc n) = ap suc (length-nulls A n)

module _ (host : Host) (start : Passwd) where
  -- The session that a greeter is told of, if any: one that logind describes, of another user than
  -- the daemon's own.
  abbrev pub entry : Text → Fetch Details → List ProtoSession
  entry handle undefined = []
  entry handle refused = []
  entry handle (got d) =
      if d.uid == start.pw_uid
      then []
      else record {
        id = some handle;
        user = getpwuid host.passwd d.uid >>= λ user. some user.pw_name;
        name = d.name;
        icon = none;
      }
        ∷ []

  unfoldable pub visible : List Text → List ProtoSession
  visible [] = []
  visible (handle ∷ handles) =
      entry handle (session_details host.logind true true (some handle)) ++ visible handles

  -- What is asked of a session: a description that is written, of a user with an account.
  abbrev pub IsUsable : Fetch Details → Type 0
  IsUsable undefined = ⊥
  IsUsable refused = Unit {0}
  IsUsable (got d) = is_some (getpwuid host.passwd d.uid) ≡ true

  abbrev pub AreUsable : List Text → Type 0
  AreUsable = All (λ handle. IsUsable (session_details host.logind true true (some handle)))

  -- Every session that is told has an id.
  pub visible_identified :
      (handles : List Text) → All (λ (s : ProtoSession). is_some s.id ≡ true) (visible handles)
  unfolding visible
  visible_identified [] = tt
  visible_identified (handle ∷ handles) =
      All-append (λ (s : ProtoSession). is_some s.id ≡ true) _ (visible handles)
        (entry_identified handle (session_details host.logind true true (some handle)))
        (visible_identified handles)
    where
      entry_identified :
          (handle : Text) (f : Fetch Details)
          → All (λ (s : ProtoSession). is_some s.id ≡ true) (entry handle f)
      entry_identified handle undefined = tt
      entry_identified handle refused = tt
      entry_identified handle (got d) = elim (Bool-cases (d.uid == start.pw_uid)) [
        | inl q ↦ rw q tt
        | inr q ↦ rw q (refl, tt)
      ]

  module _ (ratio : ℕ) (junk : ℕ → Option ProtoSession) where
    -- The first slots are those that are told, and the array still has room for the rest.
    record Kept (number i : ℕ) (told : List ProtoSession) (r : List (Option ProtoSession) × ℕ)
        : Type 0 where
      le : r.1 ≤ i
      room : number - r.1 ≤ length r.0
      kept : take (i - r.1) r.0 ≡ map (λ x. some x) told

    session_step-Kept :
        (number i offset : ℕ) (slots : List (Option ProtoSession)) (told : List ProtoSession)
        (handle : Text) (f : Fetch Details)
        → 1 ≤ ratio
        → start_user host ≡ some start
        → IsUsable f
        → i < number
        → Kept number i told (slots, offset)
        → (r : List (Option ProtoSession) × ℕ) × (session_step host ratio junk number i offset slots
              handle f
            ≡ some r)
          × Kept number (i + 1) (told ++ entry handle f) r
    unfolding session_step
    session_step-Kept number i offset slots told handle undefined pos st u lt k = elim u [ ]
    session_step-Kept number i offset slots told handle refused pos st u lt k =
        let (ys, e, l, same, more) =
          set_kept slots (i - offset) none (omega (arith, k.room, k.le)) in
        let m = (number - (offset + 1)) * ratio in
        let big : number - (offset + 1) ≤ m = grind arith in
        let at : i + 1 - (offset + 1) ≡ i - offset = omega arith in
        (
          (realloc junk ys m, offset + 1),
          rw e,
          record {
            le = omega (arith, k.le);
            room = omega (arith, big, length-realloc junk ys m);
            kept =
                rw (at, append-nil told)
                  (take-realloc junk ys (i - offset) m (omega (arith, big, k.le))
                      (omega (arith, l, k.room, k.le))
                    ∙ same
                    ∙ k.kept);
          },
        )
    session_step-Kept number i offset slots told handle (got d) pos st u lt k =
        elim (Bool-cases (d.uid == start.pw_uid)) [
          | inl mine ↦
              let v : ProtoSession = record {
                id = none;
                user = none;
                name = d.name;
                icon = none;
              } in
              let (ys, e, l, same, more) =
                set_kept slots (i - offset) (some v) (omega (arith, k.room, k.le)) in
              let at : i + 1 - (offset + 1) ≡ i - offset = omega arith in
              (
                (ys, offset + 1),
                rw (st, mine, e),
                rw (mine, append-nil told)
                    (record {
                      le = omega (arith, k.le);
                      room = omega (arith, l, k.room);
                      kept = rw at (same ∙ k.kept);
                    }),
              )
          | inr other ↦ elim (Option-cases (getpwuid host.passwd d.uid)) [
            | inl n ↦ absurd (ground (arith, u))
            | inr (user, found) ↦
                let v : ProtoSession = record {
                  id = some handle;
                  user = some user.pw_name;
                  name = d.name;
                  icon = none;
                } in
                let (ys, e, l, same, more) =
                  set_kept slots (i - offset) (some v) (omega (arith, k.room, k.le)) in
                let at : i + 1 - offset ≡ i - offset + 1 = omega (arith, k.le) in
                (
                  (ys, offset),
                  rw (st, other, found, e),
                  rw (other, found)
                      (record {
                        le = omega (arith, k.le);
                        room = omega (arith, l, k.room);
                        kept = rw at (
                            more
                            ∙ ap (λ (t : List (Option ProtoSession)). t ++ some v ∷ []) k.kept
                            ∙ sym (map-some-append told v));
                      }),
                )
          ]
        ]

    sessions_loop-Kept :
        (number i offset : ℕ) (slots : List (Option ProtoSession)) (told : List ProtoSession)
        (handles : List Text)
        → 1 ≤ ratio
        → start_user host ≡ some start
        → AreUsable handles
        → i + length handles ≡ number
        → Kept number i told (slots, offset)
        → (r : List (Option ProtoSession) × ℕ) × (sessions_loop host ratio junk number i offset
              slots handles
            ≡ some r)
          × Kept number number (told ++ visible handles) r
    unfolding sessions_loop visible
    sessions_loop-Kept number i offset slots told [] pos st us total k =
        let here : i ≡ number = omega arith in
        (
          (slots, offset),
          refl,
          rw (append-nil told) (subst (λ j. Kept number j told (slots, offset)) here k),
        )
    sessions_loop-Kept number i offset slots told (h ∷ hs) pos st us total k =
        let f = session_details host.logind true true (some h) in
        let (r, e, k') =
          session_step-Kept number i offset slots told h f pos st us.0 (omega arith) k in
        let (r', e', k'') =
          sessions_loop-Kept number (i + 1) r.1 r.0 (told ++ entry h f) hs pos st us.1 (omega arith)
            k' in
        (r', rw e e', rw (← append_assoc told (entry h f) (visible hs)) k'')

    -- With an account for SP_USER, sessions that logind describes in full and whose users have
    -- accounts, and a session no smaller than a pointer: the slots that are shifted and reallocated end
    -- as the list of the sessions that logind describes and that are not of SP_USER, in their order.
    pub load_sessions-visible :
        (seat : Option Text)
        → 1 ≤ ratio
        → start_user host ≡ some start
        → AreUsable (session_enumerate host.logind seat)
        → load_sessions host ratio junk seat ≡ some (visible (session_enumerate host.logind seat))
    unfolding load_sessions
    load_sessions-visible seat pos st us =
        let handles = session_enumerate host.logind seat in
        let number = length handles in
        let empty : Kept number 0 [] (nulls number, 0) = record {
          le = omega arith;
          room = omega (arith, length-nulls ProtoSession number);
          kept = refl;
        } in
        let (r, e, k) =
          sessions_loop-Kept number 0 0 (nulls number) [] handles pos st us (omega arith) empty in
        rw (e, k.kept) (all_some-map (visible handles))
