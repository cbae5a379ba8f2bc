-- ===== src/Manager/Watched.antt =====
-- manager.c: which descriptors are watched once one is registered or unregistered.
use spawny.Base.{
  ℕ, zero, suc, ◌≡◌, refl, ◌∙◌, Bool, true, false, not, ◌&&◌, ◌||◌, List, [], ◌∷◌, ◌++◌, arith,
  ◌==◌, keep, some, Bool-cases, inl, inr,
}
use spawny.Manager.{
  FdRegister, Manager, watched, mark, clear_objects, manager_register_fd, manager_unregister_fd,
  flush,
}

-- The descriptors but one.
abbrev pub others : ℕ → List ℕ → List ℕ
others fd = keep (λ n. not (n == fd))

watched-mark : (fd : ℕ) (rs : List FdRegister) → watched (mark fd rs) ≡ others fd (watched rs)
unfolding watched mark
watched-mark fd [] = refl
watched-mark fd (r ∷ rs) = ground (arith, watched-mark fd rs)

watched-clear_objects : (rs : List FdRegister) → watched (clear_objects rs) ≡ watched rs
unfolding watched clear_objects
watched-clear_objects [] = refl
watched-clear_objects (r ∷ rs) = ground (arith, watched-clear_objects rs)

pub watched-manager_unregister_fd :
    (fd : ℕ) (m : Manager) → watched (manager_unregister_fd fd m).fds ≡ others fd (watched m.fds)
unfolding manager_unregister_fd
watched-manager_unregister_fd fd m = elim (Bool-cases m.readout) [
  | inl q ↦ rw q (watched-mark fd m.fds)
  | inr q ↦ rw q (watched-clear_objects (mark fd m.fds) ∙ watched-mark fd m.fds)
]

pub others_twice : (fd : ℕ) (ns : List ℕ) → others fd (others fd ns) ≡ others fd ns
others_twice fd [] = refl
others_twice fd (n ∷ ns) = ground (arith, others_twice fd ns)

-- Whether a descriptor is among them.
unfoldable pub watches : ℕ → List ℕ → Bool
watches fd [] = false
watches fd (n ∷ ns) = (n == fd) || watches fd ns

pub watches-others : (fd : ℕ) (ns : List ℕ) → watches fd (others fd ns) ≡ false
unfolding watches
watches-others fd [] = refl
watches-others fd (n ∷ ns) = ground (arith, watches-others fd ns)

pub watches-others_other :
    (fd other : ℕ) (ns : List ℕ)
    → (fd == other) ≡ false
    → watches fd (others other ns) ≡ watches fd ns
unfolding watches
watches-others_other fd other [] h = refl
watches-others_other fd other (n ∷ ns) h = ground (arith, watches-others_other fd other ns)

-- The descriptors but two.
abbrev pub unrelated : ℕ → ℕ → List ℕ → List ℕ
unrelated a b = keep (λ n. not (n == a) && not (n == b))

pub unrelated-others_first :
    (a b : ℕ) (ns : List ℕ) → unrelated a b (others a ns) ≡ unrelated a b ns
unrelated-others_first a b [] = refl
unrelated-others_first a b (n ∷ ns) = ground (arith, unrelated-others_first a b ns)

pub unrelated-others_second :
    (a b : ℕ) (ns : List ℕ) → unrelated a b (others b ns) ≡ unrelated a b ns
unrelated-others_second a b [] = refl
unrelated-others_second a b (n ∷ ns) = ground (arith, unrelated-others_second a b ns)

pub watched-flush : (n : ℕ) (rs : List FdRegister) → watched (flush n rs) ≡ watched rs
unfolding flush
watched-flush zero rs = refl
watched-flush (suc n) rs = watched-flush n (clear_objects rs) ∙ watched-clear_objects rs

watched-append :
    (rs : List FdRegister) (fd cb : ℕ)
    → watched (rs ++ record { fd = fd; cb = some cb } ∷ []) ≡ watched rs ++ fd ∷ []
unfolding watched
watched-append [] fd cb = refl
watched-append (r ∷ rs) fd cb = ground (arith, watched-append rs fd cb)

pub watched-manager_register_fd :
    (fd cb : ℕ) (m : Manager) → watched (manager_register_fd fd cb m).fds ≡ watched m.fds ++ fd ∷ []
unfolding manager_register_fd
watched-manager_register_fd fd cb m = watched-append m.fds fd cb

pub watches-added : (fd : ℕ) (ns : List ℕ) → watches fd (ns ++ fd ∷ []) ≡ true
unfolding watches
watches-added fd [] = ground arith
watches-added fd (n ∷ ns) = ground (arith, watches-added fd ns)

pub unrelated-added : (a b : ℕ) (ns : List ℕ) → unrelated a b (ns ++ a ∷ []) ≡ unrelated a b ns
unrelated-added a b [] = ground arith
unrelated-added a b (n ∷ ns) = ground (arith, unrelated-added a b ns)
