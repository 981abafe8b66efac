-- ===== src/Buffers.antt =====
-- Small routines of the recitations that work on a caller's bytes: upper_not_reentrant and
-- upper_reentrant (recitation/threads/thread_test.c), copy_from_user_sim and copy_to_user_sim
-- (recitation/kernel-mem-access/copy_sim.c), reverse_in_place (recitation/syscall-demo/syscall_demo.c).
-- A string `s` is the list of its bytes before the terminator. toupper is a parameter.
pub mod Upper
pub mod Copy
pub mod Reverse
pub mod Labels
pub mod Exchange
use csci_3753_operating_syst.Prelude.{
  ℕ, zero, suc, ◌+◌, ◌-◌, ◌*◌, ◌/◌, ◌%◌, ◌^◌, ◌≤◌, ◌<◌, min, ◌≡◌, refl, sym, ap, ◌∙◌, subst, ◌≢◌,
  ◌↔◌, ◌⊎◌, inl, inr, Bool, true, false, not, ◌&&◌, ◌||◌, Option, none, some, List, [], ◌∷◌, ◌++◌,
  map, arith, dec_lt, ℕ_discrete, ltb, leb, ◌==◌, if◌then◌else◌, ltb→lt, lt→ltb, leb→le, ==_iff,
  tests, Bool-cases, bool_eq, Option-cases, if_keeps, length, get_elem?, get_or, set, take, drop,
  replicate, length-append, length-set, set-set, length-replicate, get_elem?_lt,
  get_elem?-eq-get_or, get_elem?-set_self, get_elem?-set_ne, get_or-set_self, get_or-set_ne,
  length-take, length-drop, take-append-drop, length-map, get_elem?-map, get_elem?_of_lt,
  drop-eq-cons, get_elem?-take, get_or-take, get_or-eq_get_elem?, All, All-set, All-get_or,
  All-take, All-get_elem?, All-replicate,
}

module _ (toupper : ℕ → ℕ) where
  -- The loops of the two functions, from byte `i` of the buffer on.
  unfoldable pub upper_bytes : ℕ → List ℕ → ℕ → List ℕ → List ℕ
  upper_bytes zero s i buf = buf
  upper_bytes (suc n) [] i buf = buf
  upper_bytes (suc n) (c ∷ s) i buf = upper_bytes n s (i + 1) (set buf i (toupper c))

  -- `upper_reentrant`
  unfoldable pub upper_reentrant : List ℕ → List ℕ → ℕ → List ℕ
  unfolding upper_bytes
  upper_reentrant s out outcap =
      let n = if leb outcap (length s) then outcap - 1 else length s in
      if outcap == 0 then out else set (upper_bytes n s 0 out) n 0

  -- `upper_not_reentrant`: from the static buffer to the static buffer, which is what the result
  -- points to.
  unfoldable pub upper_not_reentrant : List ℕ → List ℕ → List ℕ
  unfolding upper_bytes
  upper_not_reentrant s buf =
      let n = if leb 64 (length s) then 63 else length s in set (upper_bytes n s 0 buf) n 0

-- `copy_from_user_sim`: the result and the kernel's bytes. A NULL pointer is `none`.
unfoldable pub copy_from_user_sim : Option (List ℕ) → ℕ → List ℕ → ℕ → ℕ × List ℕ
copy_from_user_sim none user_len kernel_dst kernel_cap = (0, kernel_dst)
copy_from_user_sim (some user_src) user_len kernel_dst kernel_cap =
    if ltb kernel_cap user_len
    then (0, kernel_dst)
    else (user_len, take user_len user_src ++ drop user_len kernel_dst)

-- `copy_to_user_sim`: the result and the user's bytes, if there are any.
unfoldable pub copy_to_user_sim : List ℕ → ℕ → Option (List ℕ) → ℕ → ℕ × Option (List ℕ)
copy_to_user_sim kernel_src kernel_len none user_cap = (0, none)
copy_to_user_sim kernel_src kernel_len (some user_dst) user_cap =
    if ltb user_cap kernel_len
    then (0, some user_dst)
    else (kernel_len, some (take kernel_len kernel_src ++ drop kernel_len user_dst))

-- `while (i < j)` of `reverse_in_place`, on fuel.
unfoldable pub swap_loop : ℕ → ℕ → ℕ → List ℕ → List ℕ
swap_loop zero i j s = s
swap_loop (suc fuel) i j s =
    let tmp = get_or s i 0 in
    let rest = swap_loop fuel (i + 1) (j - 1) (set (set s i (get_or s j 0)) j tmp) in
    if ltb i j then rest else s

-- `reverse_in_place`
unfoldable pub reverse_in_place : List ℕ → List ℕ
unfolding swap_loop
reverse_in_place s = if length s == 0 then s else swap_loop (length s) 0 (length s - 1) s
