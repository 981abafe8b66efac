-- ===== src/Lookup.antt =====
-- assignments/pa6/multi-lookup.c: requester threads read host names out of files, resolver threads look
-- them up, and main feeds both through two shared arrays. A string is the list of its bytes.
-- The shared array is not in the directory of the program: it is a parameter, and so are the files
-- and the lookup of a name. A thread's step is the code up to its next call on a shared array or
-- output.
pub mod Pool
pub mod Account
pub mod Cut
pub mod Requests
pub mod Answers
pub mod Feeding
pub mod Complete
pub mod Idle
pub mod Progress
pub mod Dns
pub mod Start
pub mod Spawn
pub mod Energy
pub mod Launch
pub mod Whole
use csci_3753_operating_syst.Prelude.{
  ℕ, zero, suc, ◌+◌, ◌-◌, ◌*◌, ◌/◌, ◌%◌, ◌^◌, ◌≤◌, ◌<◌, min, ◌≡◌, refl, sym, ap, ◌∙◌, subst, ◌≢◌,
  ◌↔◌, ◌⊎◌, inl, inr, Bool, true, false, not, ◌&&◌, ◌||◌, Option, none, some, List, [], ◌∷◌, ◌++◌,
  map, arith, dec_lt, ℕ_discrete, ltb, leb, ◌==◌, if◌then◌else◌, ltb→lt, lt→ltb, leb→le, ==_iff,
  tests, Bool-cases, bool_eq, Option-cases, if_keeps, length, get_elem?, get_or, set, take, drop,
  replicate, length-append, length-set, set-set, length-replicate, get_elem?_lt,
  get_elem?-eq-get_or, get_elem?-set_self, get_elem?-set_ne, get_or-set_self, get_or-set_ne,
  length-take, length-drop, take-append-drop, length-map, get_elem?-map, get_elem?_of_lt,
  drop-eq-cons, get_elem?-take, get_or-take, get_or-eq_get_elem?, All, All-set, All-get_or,
  All-take, All-get_elem?, All-replicate,
}

abbrev pub Text : Type 0
Text = List ℕ

abbrev pub max_file_name_length : ℕ
max_file_name_length = 20

-- "{END}"
abbrev pub poison : Text
poison = 123 ∷ 69 ∷ 78 ∷ 68 ∷ 125 ∷ []

-- "NOT_RESOLVED"
abbrev pub not_resolved : Text
not_resolved = 78 ∷ 79 ∷ 84 ∷ 95 ∷ 82 ∷ 69 ∷ 83 ∷ 79 ∷ 76 ∷ 86 ∷ 69 ∷ 68 ∷ []

-- `strcmp(a, b) == 0`
abbrev pub same_text : Text → Text → Bool
same_text [] [] = true
same_text (a ∷ as') (b ∷ bs) = a == b && same_text as' bs
same_text _ _ = false

unfoldable pub is_poison : Text → Bool
is_poison name = same_text name poison

-- `buffer[strcspn(buffer, "\n")] = 0`
unfoldable pub cut_line : Text → Text
cut_line [] = []
cut_line (c ∷ buffer) = let rest = cut_line buffer in if c == 10 then [] else c ∷ rest

-- What a call on a shared array does: it waits until another thread has called, it returns -1, or
-- it returns 0.
pub data Reply (A : Type 0) : Type 0 where
  waits : Reply A
  error : Reply A
  ok : A → Reply A

-- Where a requester is in its loops, with `num_serviced` and the lines of the file that are left.
pub data Requester : Type 0 where
  taking : ℕ → Requester
  reading : ℕ → List Text → Requester
  logging : ℕ → Text → List Text → Requester
  left : ℕ → Requester

pub data Resolver : Type 0 where
  waiting : ℕ → Resolver
  writing : ℕ → Text → Text → Resolver
  gone : ℕ → Resolver

-- Where `main` is: the file names and the pills that it has left to put. `cleanup` has its result.
pub data Main : Type 0 where
  feeding : List Text → Main
  poisoning : ℕ → Main
  joining : Main
  poisoning_hosts : ℕ → Main
  joining_hosts : Main
  cleanup : Bool → Main

-- The shared arrays `file_store` and `host_store`, the threads, and the two output files.
pub record Program (Q : Type 0) : Type 0 where
  pub files : Q
  pub hosts : Q
  pub main : Main
  pub requesters : List Requester
  pub resolvers : List Resolver
  pub serviced : List Text
  pub results : List (Text × Text)

-- The threads that have returned can be joined.
unfoldable pub all_left : List Requester → Bool
all_left [] = true
all_left (left n ∷ threads) = all_left threads
all_left (_ ∷ threads) = false

unfoldable pub all_gone : List Resolver → Bool
all_gone [] = true
all_gone (gone n ∷ threads) = all_gone threads
all_gone (_ ∷ threads) = false

-- What is written for a name that is not found.
unfoldable pub answer : Option Text → Text
answer none = not_resolved
answer (some ip) = ip

module _ {Q : Type 0} (put : Text → Q → Reply Q) (get : Q → Reply (Text × Q))
    (open_file : Text → Option (List Text)) (dnslookup : Text → Option Text)
    (max_name_length : ℕ) where
  -- The requester has a file name.
  unfoldable pub opened : ℕ → Text → Requester
  opened n file_name =
      if is_poison file_name
      then left n
      else elim (open_file file_name) [ none ↦ left n | some lines ↦ reading n lines ]

  unfoldable pub took_file : ℕ → ℕ → Reply (Text × Q) → Program Q → Option (Program Q)
  unfolding opened
  took_file i n waits s = none
  took_file i n error s = some (record s { requesters = set s.requesters i (left n) })
  took_file i n (ok (name, files)) s = some (record s {
    files = files;
    requesters = set s.requesters i (opened n (take (max_file_name_length - 1) name));
  })

  unfoldable pub put_host : ℕ → ℕ → Text → List Text → Reply Q → Program Q → Option (Program Q)
  put_host i n host lines waits s = none
  put_host i n host lines error s = some (record s { requesters = set s.requesters i (left n) })
  put_host i n host lines (ok hosts) s =
      some (record s { hosts = hosts; requesters = set s.requesters i (logging n host lines) })

  -- `requester`
  unfoldable pub requester : ℕ → Requester → Program Q → Option (Program Q)
  unfolding took_file put_host
  requester i (taking n) s = took_file i n (get s.files) s
  requester i (reading n []) s =
      some (record s { requesters = set s.requesters i (taking (n + 1)) })
  requester i (reading n (buffer ∷ lines)) s =
      put_host i n (cut_line buffer) lines (put (cut_line buffer) s.hosts) s
  requester i (logging n host lines) s = some (record s {
    serviced = s.serviced ++ host ∷ [];
    requesters = set s.requesters i (reading n lines);
  })
  requester i (left n) s = none

  -- The resolver has a host name.
  unfoldable pub looked_up : ℕ → Text → Resolver
  looked_up n host_name =
      if is_poison host_name then gone n else writing n host_name (answer (dnslookup host_name))

  unfoldable pub took_host : ℕ → ℕ → Reply (Text × Q) → Program Q → Option (Program Q)
  unfolding looked_up
  took_host i n waits s = none
  took_host i n error s = some (record s { resolvers = set s.resolvers i (gone n) })
  took_host i n (ok (name, hosts)) s = some (record s {
    hosts = hosts;
    resolvers = set s.resolvers i (looked_up n (take (max_name_length - 1) name));
  })

  -- `resolver`
  unfoldable pub resolver : ℕ → Resolver → Program Q → Option (Program Q)
  unfolding took_host
  resolver i (waiting n) s = took_host i n (get s.hosts) s
  resolver i (writing n host ip) s = some (record s {
    results = s.results ++ (host, ip) ∷ [];
    resolvers = set s.resolvers i (waiting (n + 1));
  })
  resolver i (gone n) s = none

  -- A put of `main` into `file_store`, which it follows by `ok`, or by `error` if it fails.
  unfoldable pub put_file : Main → Main → Reply Q → Program Q → Option (Program Q)
  put_file after failed waits s = none
  put_file after failed error s = some (record s { main = failed })
  put_file after failed (ok files) s = some (record s { files = files; main = after })

  unfoldable pub put_pill : Main → Main → Reply Q → Program Q → Option (Program Q)
  put_pill after failed waits s = none
  put_pill after failed error s = some (record s { main = failed })
  put_pill after failed (ok hosts) s = some (record s { hosts = hosts; main = after })

  -- `main` from the loop that writes the file names on; `poison_shared_array` is the two loops of pills.
  unfoldable pub main_thread : Main → Program Q → Option (Program Q)
  unfolding put_file put_pill
  main_thread (feeding []) s = some (record s { main = poisoning (length s.requesters) })
  main_thread (feeding (name ∷ names)) s =
      put_file (feeding names) (cleanup true) (put name s.files) s
  main_thread (poisoning zero) s = some (record s { main = joining })
  main_thread (poisoning (suc n)) s = put_file (poisoning n) joining (put poison s.files) s
  main_thread joining s =
      if all_left s.requesters
      then some (record s { main = poisoning_hosts (length s.resolvers) })
      else none
  main_thread (poisoning_hosts zero) s = some (record s { main = joining_hosts })
  main_thread (poisoning_hosts (suc n)) s =
      put_pill (poisoning_hosts n) joining_hosts (put poison s.hosts) s
  main_thread joining_hosts s =
      if all_gone s.resolvers then some (record s { main = cleanup false }) else none
  main_thread (cleanup b) s = none

  -- A step of the program is one of one of its threads.
  pub data Step : Program Q → Program Q → Type 0 where
    requests :
        (s s' : Program Q) (i : ℕ) (r : Requester)
        → get_elem? s.requesters i ≡ some r
        → requester i r s ≡ some s'
        → Step s s'
    resolves :
        (s s' : Program Q) (i : ℕ) (r : Resolver)
        → get_elem? s.resolvers i ≡ some r
        → resolver i r s ≡ some s'
        → Step s s'
    runs_main : (s s' : Program Q) → main_thread s.main s ≡ some s' → Step s s'

  pub data Steps : Program Q → Program Q → Type 0 where
    stay : (s : Program Q) → Steps s s
    next : (s s1 s2 : Program Q) → Steps s s1 → Step s1 s2 → Steps s s2

  -- The threads are started, and `main` is about to write the file names.
  abbrev pub started : Q → Q → ℕ → ℕ → List Text → Program Q
  started files hosts num_requesters num_resolvers names = record {
    files = files;
    hosts = hosts;
    main = feeding names;
    requesters = replicate num_requesters (taking 0);
    resolvers = replicate num_resolvers (waiting 0);
    serviced = [];
    results = [];
  }
