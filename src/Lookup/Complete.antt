-- ===== src/Lookup/Complete.antt =====
-- A whole run of assignments/pa6/multi-lookup.c: what is in the results when main is done.
use csci_3753_operating_syst.Prelude.{
  ℕ, zero, suc, ◌<◌, ◌≡◌, refl, sym, ap, subst, inr, Bool, false, Option, List, [], ◌∷◌, arith,
  replicate, length-replicate, All, All-replicate,
}
use csci_3753_operating_syst.Lookup.{
  Text, Reply, Requester, taking, reading, logging, left, Resolver, waiting, writing, gone, cleanup,
  Program, requests, resolves, runs_main, Steps, stay, next, started,
}
use csci_3753_operating_syst.Lookup.Pool.{NoPill, Pool, of_name, Clean-Pool, total-Poison}
use csci_3753_operating_syst.Lookup.Account.{
  IsFifo, with_answer, live, alive, carried, in_hand, of_file, of_main, IsHost, IsFile, IsRequester,
  Phase, Account,
}
use csci_3753_operating_syst.Lookup.Requests.{requester-Account}
use csci_3753_operating_syst.Lookup.Answers.{resolver-Account}
use csci_3753_operating_syst.Lookup.Feeding.{main_thread-Account}
use csci_3753_operating_syst.Prelude.Sums.{total, total-replicate_zero}

none_carried :
    (w : Text → ℕ) (threads : List Requester)
    → total live threads ≡ 0
    → total (carried w) threads ≡ 0
unfolding total
none_carried w [] h = refl
none_carried w (left n ∷ threads) h = omega (arith, none_carried w threads (omega (arith, h)))
none_carried w (taking n ∷ threads) h = absurd (omega arith)
none_carried w (reading n lines ∷ threads) h = absurd (omega arith)
none_carried w (logging n host lines ∷ threads) h = absurd (omega arith)

none_in_hand :
    (v : Text × Text → ℕ) (threads : List Resolver)
    → total alive threads ≡ 0
    → total (in_hand v) threads ≡ 0
unfolding total
none_in_hand v [] h = refl
none_in_hand v (gone n ∷ threads) h = omega (arith, none_in_hand v threads (omega (arith, h)))
none_in_hand v (waiting n ∷ threads) h = absurd (omega arith)
none_in_hand v (writing n host ip ∷ threads) h = absurd (omega arith)

total-replicate_one :
    {A : Type 0} (w : A → ℕ) (n : ℕ) (a : A) → w a ≡ 1 → total w (replicate n a) ≡ n
unfolding total
total-replicate_one w zero a h = refl
total-replicate_one w (suc n) a h = omega (arith, h, total-replicate_one w n a h)

module _ {Q : Type 0} (put : Text → Q → Reply Q) (get : Q → Reply (Text × Q))
    (items : Q → List Text) (open_file : Text → Option (List Text)) (dnslookup : Text → Option Text)
    (max_name_length : ℕ) (fifo : IsFifo put get items max_name_length) (long : 5 < max_name_length)
    (num_requesters num_resolvers : ℕ) (empty_files empty_hosts : Q) (names : List Text)
    (no_files : items empty_files ≡ []) (no_hosts : items empty_hosts ≡ [])
    (good : All (NoPill (IsFile open_file max_name_length)) names) where
  abbrev Kept : (Text × Text → ℕ) → Program Q → Type 0
  Kept v s =
      Account items open_file max_name_length (with_answer dnslookup v) v
        (total (of_file (with_answer dnslookup v) open_file) names) num_requesters num_resolvers s

  -- The program when its threads have been started.
  abbrev begun : Program Q
  begun =
      started put get open_file dnslookup max_name_length empty_files empty_hosts num_requesters
        num_resolvers names

  begun-Account : (v : Text × Text → ℕ) → Kept v begun
  unfolding total
  begun-Account v =
      let w = with_answer dnslookup v in
      let e1 : total (of_name (of_file w open_file)) (items empty_files) ≡ 0 =
        ap (total (of_name (of_file w open_file))) no_files in
      let e2 : total (of_name w) (items empty_hosts) ≡ 0 = ap (total (of_name w)) no_hosts in
      let e3 = total-replicate_zero (carried w) num_requesters (taking 0) refl in
      let e4 = total-replicate_zero (in_hand v) num_resolvers (waiting 0) refl in
      let n1 = total-replicate_one live num_requesters (taking 0) refl in
      let n2 = total-replicate_one alive num_resolvers (waiting 0) refl in
      let clean : All (NoPill (IsFile open_file max_name_length)) (items empty_files) =
        subst (All (NoPill (IsFile open_file max_name_length))) (sym no_files) tt in
      let clean' : All (NoPill (IsHost max_name_length)) (items empty_hosts) =
        subst (All (NoPill (IsHost max_name_length))) (sym no_hosts) tt in
      record {
        balance = omega (arith, e1, e2, e3, e4);
        requesters = All-replicate (IsRequester max_name_length) num_requesters (taking 0) tt;
        file_pool =
            subst
              (λ n.
                Pool (IsFile open_file max_name_length) (items empty_files) n num_requesters
                  num_requesters)
              (sym n1)
              (Clean-Pool (IsFile open_file max_name_length) (items empty_files) num_requesters
                clean);
        host_pool =
            subst
              (λ n. Pool (IsHost max_name_length) (items empty_hosts) n num_resolvers num_resolvers)
              (sym n2)
              (Clean-Pool (IsHost max_name_length) (items empty_hosts) num_resolvers clean');
        calm = inr (clean', refl);
        phase = (good, clean);
        threads = (
          length-replicate num_requesters (taking 0),
          length-replicate num_resolvers (waiting 0),
        );
      }

  -- The account holds at every moment of every run.
  pub Steps-Account :
      (v : Text × Text → ℕ) (s : Program Q)
      → Steps put get open_file dnslookup max_name_length begun s
      → Kept v s
  Steps-Account v s runs = go begun s runs (begun-Account v)
    where
      go :
          (s0 s1 : Program Q)
          → Steps put get open_file dnslookup max_name_length s0 s1
          → Kept v s0
          → Kept v s1
      go s0 s1 (stay s2) h = h
      go s0 s1 (next s2 s3 s4 before (requests s5 s6 i r at step)) h =
          requester-Account put get items open_file dnslookup max_name_length fifo
            (with_answer dnslookup v) v _ num_requesters num_resolvers s5 s6 i r (go s2 s3 before h)
            at step
      go s0 s1 (next s2 s3 s4 before (resolves s5 s6 i r at step)) h =
          resolver-Account put get items open_file dnslookup max_name_length fifo
            (with_answer dnslookup v) v (λ h. refl) _ num_requesters num_resolvers s5 s6 i r long
            (go s2 s3 before h) at step
      go s0 s1 (next s2 s3 s4 before (runs_main s5 s6 step)) h =
          main_thread-Account put get items open_file dnslookup max_name_length fifo long
            (with_answer dnslookup v) v _ num_requesters num_resolvers s5 s6 (go s2 s3 before h)
            step

  -- When `main` is done, every host name of the files has been written to the results with its answer,
  -- as often as it is in the files, and nothing else has: each weight of names has the same sum over
  -- both. The run has not failed. This is so in every order in which the threads may run, if there is
  -- a thread of each kind and the files and their lines can be handled as they are.
  pub results_complete :
      (s : Program Q) (failed : Bool)
      → 0 < num_requesters
      → 0 < num_resolvers
      → Steps put get open_file dnslookup max_name_length begun s
      → s.main ≡ cleanup failed
      → (failed ≡ false)
        × ((v : Text × Text → ℕ)
            → total v s.results ≡ total (of_file (with_answer dnslookup v) open_file) names)
  results_complete s failed some_requester some_resolver runs done = (
    (ended (λ p. 0)).0,
    λ v.
        let h = Steps-Account v s runs in
        let (right, no_requester, no_resolver) = ended v in
        let e1 = none_carried (with_answer dnslookup v) s.requesters no_requester in
        let e2 = none_in_hand v s.resolvers no_resolver in
        let e3 =
          total-Poison (of_file (with_answer dnslookup v) open_file) (items s.files)
            (h.file_pool.spent (omega arith)) in
        let e4 =
          total-Poison (with_answer dnslookup v) (items s.hosts)
            (h.host_pool.spent (omega arith)) in
        let e5 : of_main (with_answer dnslookup v) open_file s.main ≡ 0 = rw done refl in
        omega (arith, h.balance, e1, e2, e3, e4, e5),
  )
    where
      ended :
          (v : Text × Text → ℕ)
          → (failed ≡ false) × (total live s.requesters ≡ 0) × (total alive s.resolvers ≡ 0)
      ended v =
          subst
            (λ m.
              Phase items open_file max_name_length m (items s.files) (total live s.requesters)
                (total alive s.resolvers))
            done (Steps-Account v s runs).phase
