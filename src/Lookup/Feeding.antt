-- ===== src/Lookup/Feeding.antt =====
-- A step of main of assignments/pa6/multi-lookup.c keeps the account of the host names.
use csci_3753_operating_syst.Prelude.{
  ℕ, zero, suc, ◌+◌, ◌<◌, ◌≡◌, refl, sym, ap, ◌∙◌, subst, ◌⊎◌, inl, inr, Bool, true, false, Option,
  none, some, List, [], ◌∷◌, arith, if◌then◌else◌, Bool-cases, length, All,
}
use csci_3753_operating_syst.Lookup.{
  Text, Reply, waits, error, ok, poison, is_poison, Requester, taking, reading, logging, left,
  Resolver, waiting, writing, gone, Main, feeding, poisoning, joining, poisoning_hosts,
  joining_hosts, cleanup, Program, all_left, all_gone, put_file, put_pill, main_thread,
}
use csci_3753_operating_syst.Lookup.Pool.{
  NoPill, Pool, of_name, All-snoc, Pool-put_name, Pool-put_pill, total-name,
}
use csci_3753_operating_syst.Lookup.Account.{
  IsFifo, live, alive, unsent_files, unsent_hosts, of_file, of_main, IsHost, IsFile, Phase, Account,
}
use csci_3753_operating_syst.Prelude.Sums.{total, total-append}

pub all_left-live : (threads : List Requester) → all_left threads ≡ true → total live threads ≡ 0
unfolding all_left total
all_left-live [] h = refl
all_left-live (left n ∷ threads) h = omega (arith, all_left-live threads h)
all_left-live (taking n ∷ threads) h = absurd (cc)
all_left-live (reading n lines ∷ threads) h = absurd (cc)
all_left-live (logging n host lines ∷ threads) h = absurd (cc)

pub all_gone-alive : (threads : List Resolver) → all_gone threads ≡ true → total alive threads ≡ 0
unfolding all_gone total
all_gone-alive [] h = refl
all_gone-alive (gone n ∷ threads) h = omega (arith, all_gone-alive threads h)
all_gone-alive (waiting n ∷ threads) h = absurd (cc)
all_gone-alive (writing n host ip ∷ threads) h = absurd (cc)

module _ {Q : Type 0} (put : Text → Q → Reply Q) (get : Q → Reply (Text × Q))
    (items : Q → List Text) (open_file : Text → Option (List Text)) (dnslookup : Text → Option Text)
    (max_name_length : ℕ) (fifo : IsFifo put get items max_name_length) (long : 5 < max_name_length)
    (w : Text → ℕ) (v : Text × Text → ℕ) (sum num_requesters num_resolvers : ℕ) where
  abbrev Kept : Program Q → Type 0
  Kept s = Account items open_file max_name_length w v sum num_requesters num_resolvers s

  -- What the account says where `main` is at `m`, with these arrays.
  record Standing (s : Program Q) (m : Main) (files hosts : Q) : Type 0 where
    balance :
        of_main w open_file m
          + total (of_name (of_file w open_file)) (items files)
          + total (of_name w) (items hosts)
        ≡ of_main w open_file s.main
          + total (of_name (of_file w open_file)) (items s.files)
          + total (of_name w) (items s.hosts)
    file_pool :
        Pool
          (IsFile open_file max_name_length)
          (items files)
          (total live s.requesters)
          (unsent_files num_requesters m)
          num_requesters
    host_pool :
        Pool
          (IsHost max_name_length)
          (items hosts)
          (total alive s.resolvers)
          (unsent_hosts num_resolvers m)
          num_resolvers
    calm :
        (total live s.requesters ≡ 0)
        ⊎ (All (NoPill (IsHost max_name_length)) (items hosts)
            × (unsent_hosts num_resolvers m ≡ num_resolvers))
    phase :
        Phase items open_file max_name_length m
          (items files)
          (total live s.requesters)
          (total alive s.resolvers)

  here : (s : Program Q) (m : Main) → Kept s → s.main ≡ m → Standing s m s.files s.hosts
  here s m h e =
      subst (λ n. Standing s n s.files s.hosts) e
        (record {
          balance = refl;
          file_pool = h.file_pool;
          host_pool = h.host_pool;
          calm = h.calm;
          phase = h.phase;
        })

  -- `main` goes on to `m`.
  Standing-Account :
      (s s' : Program Q) (m : Main) (files hosts : Q)
      → Kept s
      → Standing s m files hosts
      → some (record s { files = files; hosts = hosts; main = m }) ≡ some s'
      → Kept s'
  Standing-Account s s' m files hosts h at runs =
      let same : record s { files = files; hosts = hosts; main = m } ≡ s' = cc in
      subst Kept same (record {
        balance = omega (arith, h.balance, at.balance);
        requesters = h.requesters;
        file_pool = at.file_pool;
        host_pool = at.host_pool;
        calm = at.calm;
        phase = at.phase;
        threads = h.threads;
      })

  feed :
      (s s' : Program Q) (name : Text) (names : List Text) (reply : Reply Q)
      → Kept s
      → Standing s (feeding (name ∷ names)) s.files s.hosts
      → put name s.files ≡ reply
      → put_file put get open_file dnslookup max_name_length (feeding names) (cleanup true) reply s
        ≡ some s'
      → Kept s'
  unfolding put_file total
  feed s s' name names waits h at e runs = absurd (cc)
  feed s s' name names error h at e runs = absurd (fifo.put_error name s.files at.phase.0.0.1.1 e)
  feed s s' name names (ok files) h at e runs =
      let good = at.phase.0.0 in
      let there = fifo.put_ok name s.files files e in
      let weight = total-append (of_name (of_file w open_file)) (items s.files) (name ∷ []) in
      let one = total-name (of_file w open_file) name [] good.0 in
      let none_more : total (of_name (of_file w open_file)) [] ≡ 0 = refl in
      Standing-Account s s' (feeding names) files s.hosts h
        (record {
          balance = omega (
            arith,
            at.balance,
            ap (total (of_name (of_file w open_file))) there,
            weight,
            one,
            none_more,
          );
          file_pool =
              subst
                (λ q.
                  Pool (IsFile open_file max_name_length) q (total live s.requesters) num_requesters
                    num_requesters)
                (sym there)
                (Pool-put_name (IsFile open_file max_name_length) name (items s.files) _ _ _ good
                  at.phase.1 refl at.file_pool);
          host_pool = at.host_pool;
          calm = at.calm;
          phase = (
            at.phase.0.1,
            subst (All (NoPill (IsFile open_file max_name_length))) (sym there) (
                All-snoc (NoPill (IsFile open_file max_name_length)) (items s.files) name at.phase.1
                  good),
          );
        })
        runs

  send_pill :
      (s s' : Program Q) (n : ℕ) (reply : Reply Q)
      → Kept s
      → Standing s (poisoning (suc n)) s.files s.hosts
      → put poison s.files ≡ reply
      → put_file put get open_file dnslookup max_name_length (poisoning n) joining reply s ≡ some s'
      → Kept s'
  unfolding put_file is_poison total
  send_pill s s' n waits h at e runs = absurd (cc)
  send_pill s s' n error h at e runs = absurd (fifo.put_error poison s.files long e)
  send_pill s s' n (ok files) h at e runs =
      let there = fifo.put_ok poison s.files files e in
      let weight = total-append (of_name (of_file w open_file)) (items s.files) (poison ∷ []) in
      let none_more : total (of_name (of_file w open_file)) (poison ∷ []) ≡ 0 = refl in
      Standing-Account s s' (poisoning n) files s.hosts h
        (record {
          balance = omega (
            arith,
            at.balance,
            ap (total (of_name (of_file w open_file))) there,
            weight,
            none_more,
          );
          file_pool =
              subst
                (λ q.
                  Pool (IsFile open_file max_name_length) q (total live s.requesters) n
                    num_requesters)
                (sym there)
                (Pool-put_pill (IsFile open_file max_name_length) (items s.files) _ n _
                  at.file_pool);
          host_pool = at.host_pool;
          calm = at.calm;
          phase = tt;
        })
        runs

  send_host_pill :
      (s s' : Program Q) (n : ℕ) (reply : Reply Q)
      → Kept s
      → Standing s (poisoning_hosts (suc n)) s.files s.hosts
      → put poison s.hosts ≡ reply
      → put_pill put get open_file dnslookup max_name_length
          (poisoning_hosts n)
          joining_hosts
          reply
          s
        ≡ some s'
      → Kept s'
  unfolding put_pill is_poison total
  send_host_pill s s' n waits h at e runs = absurd (cc)
  send_host_pill s s' n error h at e runs = absurd (fifo.put_error poison s.hosts long e)
  send_host_pill s s' n (ok hosts) h at e runs =
      let there = fifo.put_ok poison s.hosts hosts e in
      let weight = total-append (of_name w) (items s.hosts) (poison ∷ []) in
      let none_more : total (of_name w) (poison ∷ []) ≡ 0 = refl in
      Standing-Account s s' (poisoning_hosts n) s.files hosts h
        (record {
          balance = omega (arith, at.balance, ap (total (of_name w)) there, weight, none_more);
          file_pool = at.file_pool;
          host_pool =
              subst (λ q. Pool (IsHost max_name_length) q (total alive s.resolvers) n num_resolvers)
                (sym there)
                (Pool-put_pill (IsHost max_name_length) (items s.hosts) _ n _ at.host_pool);
          calm = inl at.phase;
          phase = at.phase;
        })
        runs

  branch_taken : (b : Bool) (o : Option (Program Q)) → b ≡ true → (if b then o else none) ≡ o
  branch_taken b o e = rw e refl

  -- Any step of `main` keeps the account.
  main_at-Account :
      (s s' : Program Q) (m : Main)
      → Kept s
      → Standing s m s.files s.hosts
      → main_thread put get open_file dnslookup max_name_length m s ≡ some s'
      → Kept s'
  unfolding main_thread total
  main_at-Account s s' (feeding []) h at runs =
      Standing-Account s s' (poisoning (length s.requesters)) s.files s.hosts h
        (record {
          balance = at.balance;
          file_pool =
              subst
                (λ n.
                  Pool (IsFile open_file max_name_length) (items s.files) (total live s.requesters)
                    n num_requesters)
                (sym h.threads.0) at.file_pool;
          host_pool = at.host_pool;
          calm = at.calm;
          phase = tt;
        })
        runs
  main_at-Account s s' (feeding (name ∷ names)) h at runs =
      feed s s' name names (put name s.files) h at refl runs
  main_at-Account s s' (poisoning zero) h at runs =
      Standing-Account s s' joining s.files s.hosts h
        (record {
          balance = at.balance;
          file_pool = at.file_pool;
          host_pool = at.host_pool;
          calm = at.calm;
          phase = tt;
        })
        runs
  main_at-Account s s' (poisoning (suc n)) h at runs =
      send_pill s s' n (put poison s.files) h at refl runs
  main_at-Account s s' joining h at runs = elim (Bool-cases (all_left s.requesters)) [
    | inr busy ↦ absurd (cc)
    | inl ended ↦
        let none_live = all_left-live s.requesters ended in
        Standing-Account s s' (poisoning_hosts (length s.resolvers)) s.files s.hosts h
          (record {
            balance = at.balance;
            file_pool = at.file_pool;
            host_pool =
                subst
                  (λ n.
                    Pool (IsHost max_name_length) (items s.hosts) (total alive s.resolvers) n
                      num_resolvers)
                  (sym h.threads.1) at.host_pool;
            calm = inl none_live;
            phase = none_live;
          })
          (sym (branch_taken _ _ ended) ∙ runs)
  ]
  main_at-Account s s' (poisoning_hosts zero) h at runs =
      Standing-Account s s' joining_hosts s.files s.hosts h
        (record {
          balance = at.balance;
          file_pool = at.file_pool;
          host_pool = at.host_pool;
          calm = inl at.phase;
          phase = at.phase;
        })
        runs
  main_at-Account s s' (poisoning_hosts (suc n)) h at runs =
      send_host_pill s s' n (put poison s.hosts) h at refl runs
  main_at-Account s s' joining_hosts h at runs = elim (Bool-cases (all_gone s.resolvers)) [
    | inr busy ↦ absurd (cc)
    | inl ended ↦
        Standing-Account s s' (cleanup false) s.files s.hosts h
          (record {
            balance = at.balance;
            file_pool = at.file_pool;
            host_pool = at.host_pool;
            calm = inl at.phase;
            phase = (refl, at.phase, all_gone-alive s.resolvers ended);
          })
          (sym (branch_taken _ _ ended) ∙ runs)
  ]
  main_at-Account s s' (cleanup b) h at runs = absurd (cc)

  pub main_thread-Account :
      (s s' : Program Q)
      → Kept s
      → main_thread put get open_file dnslookup max_name_length s.main s ≡ some s'
      → Kept s'
  main_thread-Account s s' h runs = main_at-Account s s' s.main h (here s s.main h refl) runs
