-- ===== src/Lookup/Launch.antt =====
-- How main of assignments/pa6/multi-lookup.c starts its threads: the arguments that it gives them, and the program that
-- then runs. malloc and pthread_create are functions of the thread's number, for the requesters and for the resolvers.
use csci_3753_operating_syst.Prelude.{
  ℕ, zero, suc, ◌+◌, ◌-◌, ◌≤◌, ◌≡◌, refl, ap, ◌∙◌, Bool, true, false, ◌&&◌, ◌||◌, Option, none,
  some, List, [], ◌∷◌, ◌++◌, arith, ◌==◌, if◌then◌else◌, length, get_elem?, set, replicate,
  length-append,
}
use csci_3753_operating_syst.Lookup.{
  Text, Reply, Program, Requester, Resolver, taking, waiting, feeding, cleanup, started,
}
use csci_3753_operating_syst.Lookup.Spawn.{ThreadArgs, is_error, spawn_from, spawn_threads}
use csci_3753_operating_syst.Prelude.Int.{ℤ, pos}
use csci_3753_operating_syst.Prelude.Opt.{◌>>=◌}

-- `shared_req_args`: file_store is array 0 and host_store is array 1; serviced is file 0 and results file 1.
abbrev pub shared_req_args : ThreadArgs
shared_req_args = record {
  consume_arr = some 0;
  produce_arr = some 1;
  output_file = 0;
  num_serviced = 0;
}

abbrev pub shared_res_args : ThreadArgs
shared_res_args = record {
  consume_arr = some 1;
  produce_arr = none;
  output_file = 1;
  num_serviced = 0;
}

unfoldable pub is_array : ℕ → Option ℕ → Bool
is_array n none = false
is_array n (some i) = i == n

-- The requester that starts with these arguments, which takes from file_store, puts into host_store and
-- writes to serviced. `none` is a thread on other arrays or another file.
unfoldable pub requester_of : ThreadArgs → Option Requester
unfolding is_array
requester_of args =
    if is_array 0 args.consume_arr && is_array 1 args.produce_arr && (args.output_file == 0)
    then some (taking args.num_serviced)
    else none

-- The resolver, which takes from host_store and writes to results.
unfoldable pub resolver_of : ThreadArgs → Option Resolver
unfolding is_array
resolver_of args =
    if is_array 1 args.consume_arr && (args.output_file == 1)
    then some (waiting args.num_serviced)
    else none

-- pthread_create has started the thread: any other number than 0 is an error.
unfoldable pub is_started : ℤ → Bool
is_started (pos zero) = true
is_started _ = false

-- The threads that run, from thread `i` on, by the arguments that they were given.
unfoldable pub threads_of :
    {T : Type 0}
    → (ThreadArgs → Option T)
    → (ℕ → ℤ)
    → ℕ
    → List (Option ThreadArgs)
    → Option (List T)
unfolding is_started
threads_of thread_of pthread_create i [] = some []
threads_of thread_of pthread_create i (none ∷ args) =
    threads_of thread_of pthread_create (i + 1) args
threads_of thread_of pthread_create i (some a ∷ args) =
    let rest = threads_of thread_of pthread_create (i + 1) args in
    if is_started (pthread_create i)
    then (thread_of a >>= λ t. rest >>= λ threads. some (t ∷ threads))
    else rest

-- The program that main runs on behind its calls of spawn_threads: with the file names to write, or in
-- its cleanup if one of them failed. `none` is a write outside an array. Both arrays of arguments have
-- `num_requesters` entries.
module _ {Q : Type 0} (malloc_req malloc_res : ℕ → Bool) (create_req create_res : ℕ → ℤ) where
  unfoldable pub launch : Q → Q → ℕ → ℕ → List Text → Option (Program Q)
  unfolding spawn_threads is_error threads_of requester_of resolver_of
  launch files hosts num_requesters num_resolvers names =
      spawn_threads malloc_req create_req shared_req_args num_requesters
        (replicate num_requesters none)
      >>= λ req.
          spawn_threads malloc_res create_res shared_res_args num_resolvers
            (replicate num_requesters none)
          >>= λ res. threads_of requester_of create_req 0 req.1 >>= λ requesters.
              threads_of resolver_of create_res 0 res.1 >>= λ resolvers. some (record {
                files = files;
                hosts = hosts;
                main = if is_error res.0 || is_error req.0 then cleanup true else feeding names;
                requesters = requesters;
                resolvers = resolvers;
                serviced = [];
                results = [];
              })

get_elem?-between :
    {A : Type 0} (xs : List A) (y : A) (ys : List A) → get_elem? (xs ++ y ∷ ys) (length xs) ≡ some y
get_elem?-between [] y ys = refl
get_elem?-between (x ∷ xs) y ys = get_elem?-between xs y ys

set-between :
    {A : Type 0} (xs : List A) (y z : A) (ys : List A)
    → set (xs ++ y ∷ ys) (length xs) z ≡ (xs ++ z ∷ []) ++ ys
set-between [] y z ys = refl
set-between (x ∷ xs) y z ys = ap (λ l. x ∷ l) (set-between xs y z ys)

append_one : {A : Type 0} (xs : List A) (y : A) (ys : List A) → (xs ++ y ∷ []) ++ ys ≡ xs ++ y ∷ ys
append_one [] y ys = refl
append_one (x ∷ xs) y ys = ap (λ l. x ∷ l) (append_one xs y ys)

-- With memory, and with each thread started, spawn_threads fills the next `n` entries.
spawn_from_fills :
    (malloc : ℕ → Bool) (pthread_create : ℕ → ℤ) (shared : ThreadArgs) (n k : ℕ)
    (xs : List (Option ThreadArgs))
    → ((j : ℕ) → malloc j ≡ true)
    → ((j : ℕ) → pthread_create j ≡ pos 0)
    → spawn_from malloc pthread_create shared n (length xs) (pos 0) (xs ++ replicate (n + k) none)
      ≡ some (pos 0, xs ++ (replicate n (some shared) ++ replicate k none))
unfolding spawn_from is_error
spawn_from_fills malloc pthread_create shared zero k xs memory made =
    let e : 0 + k ≡ k = omega arith in rw e refl
spawn_from_fills malloc pthread_create shared (suc n) k xs memory made =
    let e : suc n + k ≡ suc (n + k) = omega arith in
    let here = get_elem?-between xs none (replicate (n + k) none) in
    let wrote = set-between xs none (some shared) (replicate (n + k) none) in
    let size : length xs + 1 ≡ length (xs ++ some shared ∷ []) =
      omega (arith, length-append xs (some shared ∷ [])) in
    let rest =
      spawn_from_fills malloc pthread_create shared n k (xs ++ some shared ∷ []) memory made in
    rw (e, here, memory (length xs), made (length xs), wrote, size)
      (rest
        ∙ ap (λ l. some (pos 0, l))
            (append_one xs (some shared) (replicate n (some shared) ++ replicate k none)))

threads_of-none :
    {T : Type 0} (thread_of : ThreadArgs → Option T) (pthread_create : ℕ → ℤ) (k i : ℕ)
    → threads_of thread_of pthread_create i (replicate k none) ≡ some []
unfolding threads_of
threads_of-none thread_of pthread_create zero i = refl
threads_of-none thread_of pthread_create (suc k) i =
    threads_of-none thread_of pthread_create k (i + 1)

threads_of-replicate :
    {T : Type 0} (thread_of : ThreadArgs → Option T) (pthread_create : ℕ → ℤ) (a : ThreadArgs)
    (t : T) (n k i : ℕ)
    → thread_of a ≡ some t
    → ((j : ℕ) → pthread_create j ≡ pos 0)
    → threads_of thread_of pthread_create i (replicate n (some a) ++ replicate k none)
      ≡ some (replicate n t)
unfolding threads_of
threads_of-replicate thread_of pthread_create a t zero k i e made =
    threads_of-none thread_of pthread_create k i
threads_of-replicate thread_of pthread_create a t (suc n) k i e made =
    rw (made i, e, threads_of-replicate thread_of pthread_create a t n k (i + 1) e made) refl

-- With memory, and with each thread started, main starts its threads inside its arrays if it has
-- no more resolvers than requesters, and each on the arrays and the file that it is to work on.
pub launch_lem :
    {Q : Type 0} (put : Text → Q → Reply Q) (get : Q → Reply (Text × Q))
    (open_file : Text → Option (List Text)) (dnslookup : Text → Option Text) (max_name_length : ℕ)
    (malloc_req malloc_res : ℕ → Bool) (create_req create_res : ℕ → ℤ) (files hosts : Q) (n m : ℕ)
    (names : List Text)
    → ((j : ℕ) → (malloc_req j ≡ true) × (malloc_res j ≡ true))
    → ((j : ℕ) → (create_req j ≡ pos 0) × (create_res j ≡ pos 0))
    → m ≤ n
    → launch malloc_req malloc_res create_req create_res files hosts n m names
      ≡ some (started put get open_file dnslookup max_name_length files hosts n m names)
unfolding launch spawn_threads requester_of resolver_of is_error
launch_lem put get open_file dnslookup max_name_length malloc_req malloc_res create_req create_res
      files hosts n m names memory made le =
    let req_size : n ≡ n + 0 = omega arith in
    let res_size : n ≡ m + (n - m) = omega arith in
    let req =
      ap (λ k. spawn_from malloc_req create_req shared_req_args n 0 (pos 0) (replicate k none))
        req_size
      ∙ spawn_from_fills malloc_req create_req shared_req_args n 0 [] (λ j. (memory j).0)
          (λ j. (made j).0) in
    let res =
      ap (λ k. spawn_from malloc_res create_res shared_res_args m 0 (pos 0) (replicate k none))
        res_size
      ∙ spawn_from_fills malloc_res create_res shared_res_args m (n - m) [] (λ j. (memory j).1)
          (λ j. (made j).1) in
    let requesters =
      threads_of-replicate requester_of create_req shared_req_args (taking 0) n 0 0 refl
        (λ j. (made j).0) in
    let resolvers =
      threads_of-replicate resolver_of create_res shared_res_args (waiting 0) m (n - m) 0 refl
        (λ j. (made j).1) in
    rw (req, res) (rw (requesters, resolvers) refl)
