-- ===== src/Lookup/Progress.antt =====
-- The threads of assignments/pa6/multi-lookup.c never all wait for each other.
use csci_3753_operating_syst.Prelude.{
  ℕ, zero, suc, ◌-◌, ◌<◌, ◌≡◌, refl, ap, subst, ◌⊎◌, inl, inr, Bool, false, Option, some, List, [],
  ◌∷◌, arith, length, get_elem?, set, take, All, All-get_elem?,
}
use csci_3753_operating_syst.Lookup.{
  Text, Reply, waits, error, ok, poison, cut_line, Requester, taking, reading, logging, left,
  Resolver, waiting, writing, gone, Main, feeding, poisoning, joining, poisoning_hosts,
  joining_hosts, cleanup, Program, opened, looked_up, max_file_name_length, took_file, put_host,
  requester, took_host, resolver, put_file, put_pill, main_thread, Step, requests, resolves,
  runs_main, Steps, started,
}
use csci_3753_operating_syst.Lookup.Pool.{NoPill, Pool, pill}
use csci_3753_operating_syst.Lookup.Account.{
  IsFifo, live, alive, unsent_files, unsent_hosts, IsHost, IsFile, IsRequester, Phase, Account,
}
use csci_3753_operating_syst.Lookup.Idle.{
  all_left_lem, all_gone_lem, AtGet, NoResult, find_other, idle_cases, quiet_cases, find_taking,
  find_waiting, some_thread,
}
use csci_3753_operating_syst.Lookup.Complete.{Steps-Account}
use csci_3753_operating_syst.Prelude.Sums.{total}

module _ {Q : Type 0} (put : Text → Q → Reply Q) (get : Q → Reply (Text × Q))
    (open_file : Text → Option (List Text)) (dnslookup : Text → Option Text)
    (max_name_length : ℕ) where
  -- Some thread can take a step.
  abbrev pub CanMove : Program Q → Type 0
  CanMove s = (s' : Program Q) × Step put get open_file dnslookup max_name_length s s'

module _ {Q : Type 0} (put : Text → Q → Reply Q) (get : Q → Reply (Text × Q))
    (items : Q → List Text) (open_file : Text → Option (List Text)) (dnslookup : Text → Option Text)
    (max_name_length : ℕ) (fifo : IsFifo put get items max_name_length)
    (long : 5 < max_name_length) where
  abbrev Free : Program Q → Type 0
  Free s = CanMove put get open_file dnslookup max_name_length s

  -- A put into an empty array returns 0.
  put_empty :
      (x : Text) (q : Q) → length x < max_name_length → items q ≡ [] → (q' : Q) × (put x q ≡ ok q')
  put_empty x q short e = go (put x q) refl
    where
      go : (reply : Reply Q) → put x q ≡ reply → (q' : Q) × (put x q ≡ ok q')
      go waits r = absurd (fifo.put_waits x q r e)
      go error r = absurd (fifo.put_error x q short r)
      go (ok q') r = (q', r)

  -- What a get can find.
  get_cases :
      (q : Q)
      → (items q ≡ []) ⊎ ((x : Text) × (q' : Q) × (get q ≡ ok (x, q')) × (items q ≡ x ∷ items q'))
  get_cases q = go (get q) refl
    where
      go :
          (reply : Reply (Text × Q))
          → get q ≡ reply
          → (items q ≡ [])
            ⊎ ((x : Text) × (q' : Q) × (get q ≡ ok (x, q')) × (items q ≡ x ∷ items q'))
      go waits r = inl (fifo.get_waits q r)
      go error r = absurd (fifo.get_error q r)
      go (ok (x, q')) r = inr (x, q', r, fifo.get_ok x q q' r)

  -- A requester that reads or logs goes on, if there is room for a host.
  active_moves :
      (s : Program Q) (i : ℕ) (r : Requester)
      → get_elem? s.requesters i ≡ some r
      → ¬ AtGet r
      → IsRequester max_name_length r
      → items s.hosts ≡ []
      → Free s
  unfolding requester put_host
  active_moves s i (taking n) at busy hr room = absurd (busy tt)
  active_moves s i (left n) at busy hr room = absurd (busy tt)
  active_moves s i (logging n host lines) at busy hr room =
      (_, requests s _ i (logging n host lines) at refl)
  active_moves s i (reading n []) at busy hr room = (_, requests s _ i (reading n []) at refl)
  active_moves s i (reading n (buffer ∷ lines)) at busy hr room =
      let (hosts, puts) = put_empty (cut_line buffer) s.hosts hr.0.1 room in
      (
        record s {
          hosts = hosts;
          requesters = set s.requesters i (logging n (cut_line buffer) lines);
        },
        requests s _ i (reading n (buffer ∷ lines)) at (rw puts refl),
      )

  resolver_moves :
      (s : Program Q) (i : ℕ) (r : Resolver)
      → get_elem? s.resolvers i ≡ some r
      → ¬ NoResult r
      → Free s
  unfolding resolver
  resolver_moves s i (waiting n) at busy = absurd (busy tt)
  resolver_moves s i (gone n) at busy = absurd (busy tt)
  resolver_moves s i (writing n host ip) at busy = (_, resolves s _ i (writing n host ip) at refl)

  -- A thread that waits gets what is there.
  get_host :
      (s : Program Q) (x : Text) (hosts : Q)
      → get s.hosts ≡ ok (x, hosts)
      → All NoResult s.resolvers
      → 0 < total alive s.resolvers
      → Free s
  unfolding resolver took_host
  get_host s x hosts got quiet lt =
      let (i, n, at) = find_waiting s.resolvers quiet lt in
      (
        record s {
          hosts = hosts;
          resolvers = set s.resolvers i (
              looked_up put get open_file dnslookup max_name_length n
                (take (max_name_length - 1) x));
        },
        resolves s _ i (waiting n) at (rw got refl),
      )

  get_file :
      (s : Program Q) (x : Text) (files : Q)
      → get s.files ≡ ok (x, files)
      → All AtGet s.requesters
      → 0 < total live s.requesters
      → Free s
  unfolding requester took_file
  get_file s x files got idle lt =
      let (i, n, at) = find_taking s.requesters idle lt in
      (
        record s {
          files = files;
          requesters = set s.requesters i (
              opened put get open_file dnslookup max_name_length n
                (take (max_file_name_length - 1) x));
        },
        requests s _ i (taking n) at (rw got refl),
      )

  module _ (w : Text → ℕ) (v : Text × Text → ℕ) (sum num_requesters num_resolvers : ℕ) where
    abbrev Kept : Program Q → Type 0
    Kept s = Account items open_file max_name_length w v sum num_requesters num_resolvers s

    -- With both arrays empty `main` goes on, unless it is done.
    main_moves :
        (s : Program Q) (m : Main)
        → s.main ≡ m
        → Pool
            (IsFile open_file max_name_length)
            (items s.files)
            (total live s.requesters)
            (unsent_files num_requesters m)
            num_requesters
        → Pool
            (IsHost max_name_length)
            (items s.hosts)
            (total alive s.resolvers)
            (unsent_hosts num_resolvers m)
            num_resolvers
        → Phase items open_file max_name_length m
            (items s.files)
            (total live s.requesters)
            (total alive s.resolvers)
        → items s.files ≡ []
        → items s.hosts ≡ []
        → ((failed : Bool) × (s.main ≡ cleanup failed)) ⊎ Free s
    unfolding main_thread put_file put_pill total
    main_moves s (feeding []) e fp hp ph nf nh =
        inr (record s { main = poisoning (length s.requesters) }, runs_main s _ (rw e refl))
    main_moves s (feeding (name ∷ names)) e fp hp ph nf nh =
        let (q, puts) = put_empty name s.files ph.0.0.1.1 nf in
        inr (record s { files = q; main = feeding names }, runs_main s _ (rw e (rw puts refl)))
    main_moves s (poisoning zero) e fp hp ph nf nh =
        inr (record s { main = joining }, runs_main s _ (rw e refl))
    main_moves s (poisoning (suc n)) e fp hp ph nf nh =
        let (q, puts) = put_empty poison s.files long nf in
        inr (record s { files = q; main = poisoning n }, runs_main s _ (rw e (rw puts refl)))
    main_moves s joining e fp hp ph nf nh =
        let none_in : total pill (items s.files) ≡ 0 = ap (total pill) nf in
        let ended = all_left_lem s.requesters (omega (arith, fp.count, none_in)) in
        inr (
          record s { main = poisoning_hosts (length s.resolvers) },
          runs_main s _ (rw e (rw ended refl)),
        )
    main_moves s (poisoning_hosts zero) e fp hp ph nf nh =
        inr (record s { main = joining_hosts }, runs_main s _ (rw e refl))
    main_moves s (poisoning_hosts (suc n)) e fp hp ph nf nh =
        let (q, puts) = put_empty poison s.hosts long nh in
        inr (record s { hosts = q; main = poisoning_hosts n }, runs_main s _ (rw e (rw puts refl)))
    main_moves s joining_hosts e fp hp ph nf nh =
        let none_in : total pill (items s.hosts) ≡ 0 = ap (total pill) nh in
        let ended = all_gone_lem s.resolvers (omega (arith, hp.count, none_in)) in
        inr (record s { main = cleanup false }, runs_main s _ (rw e (rw ended refl)))
    main_moves s (cleanup failed) e fp hp ph nf nh = inl (failed, e)

    -- In every state with an account some thread can take a step, unless `main` is done.
    Account-Free :
        (s : Program Q)
        → Kept s
        → 0 < num_requesters
        → 0 < num_resolvers
        → ((failed : Bool) × (s.main ≡ cleanup failed)) ⊎ Free s
    Account-Free s h some_requester some_resolver =
        elim (find_other NoResult quiet_cases s.resolvers) [
          | inr found ↦ let (i, r, at, busy) = found in inr (resolver_moves s i r at busy)
          | inl quiet ↦ elim (get_cases s.hosts) [
            | inr taken ↦
                let (x, hosts, got, there) = taken in
                let pool =
                  subst
                    (λ q.
                      Pool (IsHost max_name_length) q (total alive s.resolvers)
                        (unsent_hosts num_resolvers s.main) num_resolvers)
                    there h.host_pool in
                inr (
                  get_host s x hosts got quiet (
                    some_thread (IsHost max_name_length) x (items hosts) _ _ num_resolvers
                      some_resolver pool))
            | inl no_hosts ↦ elim (find_other AtGet idle_cases s.requesters) [
              | inr found ↦
                  let (i, r, at, busy) = found in
                  inr (
                    active_moves s i r at busy
                      (All-get_elem? (IsRequester max_name_length) s.requesters i r h.requesters at)
                      no_hosts)
              | inl idle ↦ elim (get_cases s.files) [
                | inr taken ↦
                    let (x, files, got, there) = taken in
                    let pool =
                      subst
                        (λ q.
                          Pool (IsFile open_file max_name_length) q (total live s.requesters)
                            (unsent_files num_requesters s.main) num_requesters)
                        there h.file_pool in
                    inr (
                      get_file s x files got idle (
                        some_thread (IsFile open_file max_name_length) x (items files) _ _
                          num_requesters some_requester pool))
                | inl no_files ↦
                    main_moves s s.main refl h.file_pool h.host_pool h.phase no_files no_hosts
              ]
            ]
          ]
        ]

  module _ (num_requesters num_resolvers : ℕ) (empty_files empty_hosts : Q) (names : List Text)
      (no_files : items empty_files ≡ []) (no_hosts : items empty_hosts ≡ [])
      (good : All (NoPill (IsFile open_file max_name_length)) names) where
    -- In no order of their steps do the threads all wait: at every moment of every run some thread can
    -- take a step, unless `main` is done. This is so if there is a thread of each kind, every
    -- data file opens, and the names of the files and their lines fit their buffers and are no pill.
    pub never_stuck :
        (s : Program Q)
        → 0 < num_requesters
        → 0 < num_resolvers
        → Steps put get open_file dnslookup max_name_length
            (started put get open_file dnslookup max_name_length empty_files empty_hosts
              num_requesters num_resolvers names)
            s
        → ((failed : Bool) × (s.main ≡ cleanup failed))
          ⊎ CanMove put get open_file dnslookup max_name_length s
    never_stuck s some_requester some_resolver runs =
        Account-Free _ (λ p. 0) _ num_requesters num_resolvers s
          (Steps-Account put get items open_file dnslookup max_name_length fifo long num_requesters
            num_resolvers empty_files empty_hosts names no_files no_hosts good (λ p. 0) s runs)
          some_requester some_resolver
