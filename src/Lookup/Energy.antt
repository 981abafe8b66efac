-- ===== src/Lookup/Energy.antt =====
-- Every run of assignments/pa6/multi-lookup.c ends: each step of a thread lowers a number.
use csci_3753_operating_syst.Prelude.{
  ℕ, zero, suc, ◌+◌, ◌-◌, ◌*◌, ◌≤◌, ◌<◌, ◌≡◌, refl, ap, ◌∙◌, subst, inl, inr, Bool, true, false,
  Option, none, some, List, [], ◌∷◌, ◌++◌, arith, if◌then◌else◌, Bool-cases, Option-cases, if_keeps,
  length, get_elem?, set, take, length-set,
}
use csci_3753_operating_syst.Lookup.{
  Text, Reply, waits, error, ok, poison, is_poison, cut_line, max_file_name_length, Requester,
  taking, reading, logging, left, Resolver, waiting, writing, gone, Main, feeding, poisoning,
  joining, poisoning_hosts, joining_hosts, cleanup, Program, all_left, all_gone, opened, took_file,
  put_host, requester, looked_up, took_host, resolver, put_file, put_pill, main_thread, Step,
  requests, resolves, runs_main, Steps, stay, next,
}
use csci_3753_operating_syst.Lookup.Account.{IsFifo}
use csci_3753_operating_syst.Prelude.Sums.{total, total-set, total-append}

-- How much a thread has still to do, at most.
abbrev pub to_read : Requester → ℕ
to_read (taking n) = 1
to_read (reading n lines) = 4 * length lines + 2
to_read (logging n host lines) = 4 * length lines + 3
to_read (left n) = 0

abbrev pub to_write : Resolver → ℕ
to_write (waiting n) = 1
to_write (writing n host ip) = 2
to_write (gone n) = 0

module _ {Q : Type 0} (put : Text → Q → Reply Q) (get : Q → Reply (Text × Q))
    (items : Q → List Text) (open_file : Text → Option (List Text)) (dnslookup : Text → Option Text)
    (max_name_length : ℕ) (fifo : IsFifo put get items max_name_length) where
  -- What a name in an array makes the threads do; a host name makes two steps.
  abbrev pub file_work : Text → ℕ
  unfolding opened
  file_work name =
      to_read (
        opened put get open_file dnslookup max_name_length 0 (take (max_file_name_length - 1) name))

  abbrev pub main_work : ℕ → ℕ → Main → ℕ
  main_work num_requesters num_resolvers (feeding names) =
      total file_work names + length names + num_requesters + 3 * num_resolvers + 5
  main_work num_requesters num_resolvers (poisoning n) = n + 3 * num_resolvers + 4
  main_work num_requesters num_resolvers joining = 3 * num_resolvers + 3
  main_work num_requesters num_resolvers (poisoning_hosts n) = 3 * n + 2
  main_work num_requesters num_resolvers joining_hosts = 1
  main_work num_requesters num_resolvers (cleanup b) = 0

  abbrev pub energy : Program Q → ℕ
  energy s =
      main_work (length s.requesters) (length s.resolvers) s.main
      + total file_work (items s.files)
      + total to_read s.requesters
      + total (λ x. 2) (items s.hosts)
      + total to_write s.resolvers

  -- A requester goes from `r` to `r'`.
  requester_lowers :
      (s : Program Q) (i : ℕ) (r r' : Requester) (files hosts : Q) (serviced : List Text)
      → get_elem? s.requesters i ≡ some r
      → total file_work (items files) + to_read r' + total (λ x. 2) (items hosts)
        < total file_work (items s.files) + to_read r + total (λ x. 2) (items s.hosts)
      → energy (record s {
        files = files;
        hosts = hosts;
        serviced = serviced;
        requesters = set s.requesters i r';
      })
        < energy s
  requester_lowers s i r r' files hosts serviced at lt =
      let e = total-set to_read s.requesters i r r' at in
      rw (length-set s.requesters i r') (omega (arith, e, lt))

  resolver_lowers :
      (s : Program Q) (i : ℕ) (r r' : Resolver) (hosts : Q) (results : List (Text × Text))
      → get_elem? s.resolvers i ≡ some r
      → to_write r' + total (λ x. 2) (items hosts) < to_write r + total (λ x. 2) (items s.hosts)
      → energy (record s { hosts = hosts; results = results; resolvers = set s.resolvers i r' })
        < energy s
  resolver_lowers s i r r' hosts results at lt =
      let e = total-set to_write s.resolvers i r r' at in
      rw (length-set s.resolvers i r') (omega (arith, e, lt))

  main_lowers :
      (s : Program Q) (m : Main) (files hosts : Q)
      → main_work (length s.requesters) (length s.resolvers) m
          + total file_work (items files)
          + total (λ x. 2) (items hosts)
        < main_work (length s.requesters) (length s.resolvers) s.main
          + total file_work (items s.files)
          + total (λ x. 2) (items s.hosts)
      → energy (record s { files = files; hosts = hosts; main = m }) < energy s
  main_lowers s m files hosts lt = omega (arith, lt)

  some_program : (a b : Program Q) → some a ≡ some b → a ≡ b
  some_program a b e = cc

  opened_work :
      (n : ℕ) (name : Text)
      → to_read (opened put get open_file dnslookup max_name_length n name)
        ≡ to_read (opened put get open_file dnslookup max_name_length 0 name)
  unfolding opened
  opened_work n name = elim (Bool-cases (is_poison name)) [
    | inl is_pill ↦ rw is_pill refl
    | inr no_pill ↦ elim (Option-cases (open_file name)) [
      | inl closed ↦ rw (no_pill, closed) refl
      | inr (lines, opens) ↦ rw (no_pill, opens) refl
    ]
  ]

  took_file_lowers :
      (s s' : Program Q) (i n : ℕ) (reply : Reply (Text × Q))
      → get_elem? s.requesters i ≡ some (taking n)
      → get s.files ≡ reply
      → took_file put get open_file dnslookup max_name_length i n reply s ≡ some s'
      → energy s' < energy s
  unfolding took_file total
  took_file_lowers s s' i n waits at e runs = absurd (cc)
  took_file_lowers s s' i n error at e runs =
      subst (λ t. energy t < energy s) (some_program _ s' runs)
        (requester_lowers s i (taking n) (left n) s.files s.hosts s.serviced at (omega arith))
  took_file_lowers s s' i n (ok (name, files)) at e runs =
      let there : total file_work (items s.files) ≡ file_work name + total file_work (items files) =
        ap (total file_work) (fifo.get_ok name s.files files e) in
      subst (λ t. energy t < energy s) (some_program _ s' runs)
        (requester_lowers s i (taking n) _ files s.hosts s.serviced at
          (omega (arith, there, opened_work n (take (max_file_name_length - 1) name))))

  put_host_lowers :
      (s s' : Program Q) (i n : ℕ) (buffer : Text) (lines : List Text) (reply : Reply Q)
      → get_elem? s.requesters i ≡ some (reading n (buffer ∷ lines))
      → put (cut_line buffer) s.hosts ≡ reply
      → put_host put get open_file dnslookup max_name_length i n (cut_line buffer) lines reply s
        ≡ some s'
      → energy s' < energy s
  unfolding put_host total
  put_host_lowers s s' i n buffer lines waits at e runs = absurd (cc)
  put_host_lowers s s' i n buffer lines error at e runs =
      subst (λ t. energy t < energy s) (some_program _ s' runs)
        (requester_lowers s i (reading n (buffer ∷ lines)) (left n) s.files s.hosts s.serviced at
          (omega arith))
  put_host_lowers s s' i n buffer lines (ok hosts) at e runs =
      let there : total (λ x. 2) (items hosts) ≡ total (λ x. 2) (items s.hosts) + 2 =
        ap (total (λ x. 2)) (fifo.put_ok (cut_line buffer) s.hosts hosts e)
        ∙ total-append (λ x. 2) (items s.hosts) (cut_line buffer ∷ []) in
      subst (λ t. energy t < energy s) (some_program _ s' runs)
        (requester_lowers s i (reading n (buffer ∷ lines)) (logging n (cut_line buffer) lines)
          s.files hosts s.serviced at (omega (arith, there)))

  requester_step :
      (s s' : Program Q) (i : ℕ) (r : Requester)
      → get_elem? s.requesters i ≡ some r
      → requester put get open_file dnslookup max_name_length i r s ≡ some s'
      → energy s' < energy s
  unfolding requester
  requester_step s s' i (taking n) at runs = took_file_lowers s s' i n (get s.files) at refl runs
  requester_step s s' i (reading n []) at runs =
      subst (λ t. energy t < energy s) (some_program _ s' runs)
        (requester_lowers s i (reading n []) (taking (n + 1)) s.files s.hosts s.serviced at
          (omega arith))
  requester_step s s' i (reading n (buffer ∷ lines)) at runs =
      put_host_lowers s s' i n buffer lines (put (cut_line buffer) s.hosts) at refl runs
  requester_step s s' i (logging n host lines) at runs =
      subst (λ t. energy t < energy s) (some_program _ s' runs)
        (requester_lowers s i (logging n host lines) (reading n lines) s.files s.hosts
          (s.serviced ++ host ∷ []) at (omega arith))
  requester_step s s' i (left n) at runs = absurd (cc)

  looked_up_work :
      (n : ℕ) (name : Text)
      → to_write (looked_up put get open_file dnslookup max_name_length n name) ≤ 2
  unfolding looked_up
  looked_up_work n name =
      if_keeps (λ r. to_write r ≤ 2) (is_poison name) (omega arith) (omega arith)

  took_host_lowers :
      (s s' : Program Q) (i n : ℕ) (reply : Reply (Text × Q))
      → get_elem? s.resolvers i ≡ some (waiting n)
      → get s.hosts ≡ reply
      → took_host put get open_file dnslookup max_name_length i n reply s ≡ some s'
      → energy s' < energy s
  unfolding took_host total
  took_host_lowers s s' i n waits at e runs = absurd (cc)
  took_host_lowers s s' i n error at e runs =
      subst (λ t. energy t < energy s) (some_program _ s' runs)
        (resolver_lowers s i (waiting n) (gone n) s.hosts s.results at (omega arith))
  took_host_lowers s s' i n (ok (name, hosts)) at e runs =
      let there : total (λ x. 2) (items s.hosts) ≡ 2 + total (λ x. 2) (items hosts) =
        ap (total (λ x. 2)) (fifo.get_ok name s.hosts hosts e) in
      subst (λ t. energy t < energy s) (some_program _ s' runs)
        (resolver_lowers s i (waiting n) _ hosts s.results at
          (omega (arith, there, looked_up_work n (take (max_name_length - 1) name))))

  resolver_step :
      (s s' : Program Q) (i : ℕ) (r : Resolver)
      → get_elem? s.resolvers i ≡ some r
      → resolver put get open_file dnslookup max_name_length i r s ≡ some s'
      → energy s' < energy s
  unfolding resolver
  resolver_step s s' i (waiting n) at runs = took_host_lowers s s' i n (get s.hosts) at refl runs
  resolver_step s s' i (writing n host ip) at runs =
      subst (λ t. energy t < energy s) (some_program _ s' runs)
        (resolver_lowers s i (writing n host ip) (waiting (n + 1)) s.hosts
          (s.results ++ (host, ip) ∷ []) at (omega arith))
  resolver_step s s' i (gone n) at runs = absurd (cc)

  -- The work of `main` where it is.
  here :
      (s : Program Q) (m : Main)
      → s.main ≡ m
      → main_work (length s.requesters) (length s.resolvers) s.main
        ≡ main_work (length s.requesters) (length s.resolvers) m
  here s m e = ap (main_work (length s.requesters) (length s.resolvers)) e

  poison_work : file_work poison ≡ 0
  unfolding is_poison opened
  poison_work = refl

  feed_lowers :
      (s s' : Program Q) (name : Text) (names : List Text) (reply : Reply Q)
      → s.main ≡ feeding (name ∷ names)
      → put name s.files ≡ reply
      → put_file put get open_file dnslookup max_name_length (feeding names) (cleanup true) reply s
        ≡ some s'
      → energy s' < energy s
  unfolding put_file total
  feed_lowers s s' name names waits at e runs = absurd (cc)
  feed_lowers s s' name names error at e runs =
      subst (λ t. energy t < energy s) (some_program _ s' runs)
        (main_lowers s (cleanup true) s.files s.hosts (omega (arith, here s _ at)))
  feed_lowers s s' name names (ok files) at e runs =
      let there : total file_work (items files)
          ≡ total file_work (items s.files) + (file_work name + 0) =
        ap (total file_work) (fifo.put_ok name s.files files e)
        ∙ total-append file_work (items s.files) (name ∷ []) in
      subst (λ t. energy t < energy s) (some_program _ s' runs)
        (main_lowers s (feeding names) files s.hosts (omega (arith, here s _ at, there)))

  pill_lowers :
      (s s' : Program Q) (n : ℕ) (reply : Reply Q)
      → s.main ≡ poisoning (suc n)
      → put poison s.files ≡ reply
      → put_file put get open_file dnslookup max_name_length (poisoning n) joining reply s ≡ some s'
      → energy s' < energy s
  unfolding put_file total
  pill_lowers s s' n waits at e runs = absurd (cc)
  pill_lowers s s' n error at e runs =
      subst (λ t. energy t < energy s) (some_program _ s' runs)
        (main_lowers s joining s.files s.hosts (omega (arith, here s _ at)))
  pill_lowers s s' n (ok files) at e runs =
      let there : total file_work (items files)
          ≡ total file_work (items s.files) + (file_work poison + 0) =
        ap (total file_work) (fifo.put_ok poison s.files files e)
        ∙ total-append file_work (items s.files) (poison ∷ []) in
      subst (λ t. energy t < energy s) (some_program _ s' runs)
        (main_lowers s (poisoning n) files s.hosts (omega (arith, here s _ at, there, poison_work)))

  host_pill_lowers :
      (s s' : Program Q) (n : ℕ) (reply : Reply Q)
      → s.main ≡ poisoning_hosts (suc n)
      → put poison s.hosts ≡ reply
      → put_pill put get open_file dnslookup max_name_length
          (poisoning_hosts n)
          joining_hosts
          reply
          s
        ≡ some s'
      → energy s' < energy s
  unfolding put_pill total
  host_pill_lowers s s' n waits at e runs = absurd (cc)
  host_pill_lowers s s' n error at e runs =
      subst (λ t. energy t < energy s) (some_program _ s' runs)
        (main_lowers s joining_hosts s.files s.hosts (omega (arith, here s _ at)))
  host_pill_lowers s s' n (ok hosts) at e runs =
      let there : total (λ x. 2) (items hosts) ≡ total (λ x. 2) (items s.hosts) + 2 =
        ap (total (λ x. 2)) (fifo.put_ok poison s.hosts hosts e)
        ∙ total-append (λ x. 2) (items s.hosts) (poison ∷ []) in
      subst (λ t. energy t < energy s) (some_program _ s' runs)
        (main_lowers s (poisoning_hosts n) s.files hosts (omega (arith, here s _ at, there)))

  goes_on :
      (s s' : Program Q) (b : Bool) (m m' : Main)
      → s.main ≡ m
      → main_work (length s.requesters) (length s.resolvers) m'
        < main_work (length s.requesters) (length s.resolvers) m
      → (if b then some (record s { main = m' }) else none) ≡ some s'
      → energy s' < energy s
  goes_on s s' false m m' at lt runs = absurd (cc)
  goes_on s s' true m m' at lt runs =
      subst (λ t. energy t < energy s) (some_program _ s' runs)
        (main_lowers s m' s.files s.hosts (omega (arith, here s m at, lt)))

  main_step :
      (s s' : Program Q) (m : Main)
      → s.main ≡ m
      → main_thread put get open_file dnslookup max_name_length m s ≡ some s'
      → energy s' < energy s
  unfolding main_thread total
  main_step s s' (feeding []) at runs =
      goes_on s s' true _ (poisoning (length s.requesters)) at (omega arith) runs
  main_step s s' (feeding (name ∷ names)) at runs =
      feed_lowers s s' name names (put name s.files) at refl runs
  main_step s s' (poisoning zero) at runs = goes_on s s' true _ joining at (omega arith) runs
  main_step s s' (poisoning (suc n)) at runs = pill_lowers s s' n (put poison s.files) at refl runs
  main_step s s' joining at runs =
      goes_on s s' (all_left s.requesters) _ (poisoning_hosts (length s.resolvers)) at (omega arith)
        runs
  main_step s s' (poisoning_hosts zero) at runs =
      goes_on s s' true _ joining_hosts at (omega arith) runs
  main_step s s' (poisoning_hosts (suc n)) at runs =
      host_pill_lowers s s' n (put poison s.hosts) at refl runs
  main_step s s' joining_hosts at runs =
      goes_on s s' (all_gone s.resolvers) _ (cleanup false) at (omega arith) runs
  main_step s s' (cleanup b) at runs = absurd (cc)

  step_lowers :
      (s s' : Program Q)
      → Step put get open_file dnslookup max_name_length s s'
      → energy s' < energy s
  step_lowers s s' (requests s1 s2 i r at runs) = requester_step s1 s2 i r at runs
  step_lowers s s' (resolves s1 s2 i r at runs) = resolver_step s1 s2 i r at runs
  step_lowers s s' (runs_main s1 s2 runs) = main_step s1 s2 s1.main refl runs

  abbrev pub step_count :
      {s0 s : Program Q} → Steps put get open_file dnslookup max_name_length s0 s → ℕ
  step_count (stay s) = 0
  step_count (next s0 s1 s2 before step) = suc (step_count before)

  -- No run goes on for ever: from any state, with any files, a run has at most as many steps as the
  -- energy of the state, which is a number that counts the lines, the names and the pills that are left.
  pub run_bounded :
      (s0 s : Program Q) (runs : Steps put get open_file dnslookup max_name_length s0 s)
      → step_count runs + energy s ≤ energy s0
  run_bounded s0 s (stay s1) = omega arith
  run_bounded s0 s (next s1 s2 s3 before step) =
      omega (arith, run_bounded s1 s2 before, step_lowers s2 s3 step)
