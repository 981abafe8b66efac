-- ===== src/Lookup/Account.antt =====
-- Where the host names of assignments/pa6/multi-lookup.c are while its threads run: every name is in one
-- place. The shared array is a FIFO queue that refuses no name that is short enough.
use csci_3753_operating_syst.Prelude.{
  ℕ, ◌+◌, ◌≤◌, ◌<◌, ◌≡◌, ◌≢◌, ◌⊎◌, false, Option, none, some, List, [], ◌∷◌, ◌++◌, map, arith,
  length, All,
}
use csci_3753_operating_syst.Lookup.{
  Text, Reply, waits, error, ok, cut_line, max_file_name_length, Requester, reading, logging, left,
  Resolver, writing, gone, Main, feeding, poisoning, joining, poisoning_hosts, joining_hosts,
  cleanup, Program, answer,
}
use csci_3753_operating_syst.Lookup.Pool.{NoPill, Pool, of_name}
use csci_3753_operating_syst.Prelude.Sums.{total}

-- What the program relies on of the shared array; `items` is what is in it, the oldest first.
pub record IsFifo {Q : Type 0} (put : Text → Q → Reply Q) (get : Q → Reply (Text × Q))
    (items : Q → List Text) (max_name_length : ℕ) : Type 0 where
  pub put_ok : (x : Text) (q q' : Q) → put x q ≡ ok q' → items q' ≡ items q ++ x ∷ []
  pub put_error : (x : Text) (q : Q) → length x < max_name_length → put x q ≢ error
  pub put_waits : (x : Text) (q : Q) → put x q ≡ waits → items q ≢ []
  pub get_ok : (x : Text) (q q' : Q) → get q ≡ ok (x, q') → items q ≡ x ∷ items q'
  pub get_error : (q : Q) → get q ≢ error
  pub get_waits : (q : Q) → get q ≡ waits → items q ≡ []

-- The threads that have not returned.
abbrev pub live : Requester → ℕ
live (left n) = 0
live _ = 1

abbrev pub alive : Resolver → ℕ
alive (gone n) = 0
alive _ = 1

-- The pills that `main` has still to send to the `size` threads of either kind.
abbrev pub unsent_files : ℕ → Main → ℕ
unsent_files size (feeding names) = size
unsent_files size (poisoning n) = n
unsent_files size _ = 0

abbrev pub unsent_hosts : ℕ → Main → ℕ
unsent_hosts size (poisoning_hosts n) = n
unsent_hosts size joining_hosts = 0
unsent_hosts size (cleanup b) = 0
unsent_hosts size _ = size

-- The names of a file.
abbrev pub contents : (Text → Option (List Text)) → Text → List Text
contents open_file name = elim (open_file name) [ none ↦ [] | some lines ↦ map cut_line lines ]

-- What the names weigh that a thread, or `main`, has in hand.
module _ (w : Text → ℕ) where
  abbrev pub carried : Requester → ℕ
  carried (reading n lines) = total w (map cut_line lines)
  carried (logging n host lines) = total w (map cut_line lines)
  carried _ = 0

  abbrev pub of_file : (Text → Option (List Text)) → Text → ℕ
  of_file open_file name = total w (contents open_file name)

  abbrev pub of_main : (Text → Option (List Text)) → Main → ℕ
  of_main open_file (feeding names) = total (of_file open_file) names
  of_main open_file _ = 0

-- What a name weighs with its answer.
abbrev pub with_answer : (Text → Option Text) → (Text × Text → ℕ) → Text → ℕ
with_answer dnslookup v host = v (host, answer (dnslookup host))

-- What a resolver has in hand weighs, with its answer.
abbrev pub in_hand : (Text × Text → ℕ) → Resolver → ℕ
in_hand v (writing n host ip) = v (host, ip)
in_hand v _ = 0

-- A host name and a file that the program handles as they are: a file can be opened, its name and
-- its lines are short enough, and none of them is the pill.
abbrev pub IsHost : ℕ → Text → Type 0
IsHost max_name_length host = length host < max_name_length

abbrev pub IsLine : ℕ → Text → Type 0
IsLine max_name_length buffer = NoPill (IsHost max_name_length) (cut_line buffer)

abbrev pub IsFile : (Text → Option (List Text)) → ℕ → Text → Type 0
IsFile open_file max_name_length name =
    (length name < max_file_name_length)
    × (length name < max_name_length)
    × ((lines : List Text) × (open_file name ≡ some lines) × All (IsLine max_name_length) lines)

abbrev pub IsRequester : ℕ → Requester → Type 0
IsRequester max_name_length (reading n lines) = All (IsLine max_name_length) lines
IsRequester max_name_length (logging n host lines) = All (IsLine max_name_length) lines
IsRequester max_name_length _ = Unit

module _ {Q : Type 0} (items : Q → List Text) (open_file : Text → Option (List Text))
    (max_name_length : ℕ) where
  -- What holds of the state because of where `main` is.
  abbrev pub Phase : Main → List Text → ℕ → ℕ → Type 0
  Phase (feeding names) files n k =
      All (NoPill (IsFile open_file max_name_length)) names
      × All (NoPill (IsFile open_file max_name_length)) files
  Phase (poisoning_hosts j) files n k = n ≡ 0
  Phase joining_hosts files n k = n ≡ 0
  Phase (cleanup b) files n k = (b ≡ false) × (n ≡ 0) × (k ≡ 0)
  Phase _ files n k = Unit

  pub Phase-keeps :
      (m : Main) (files files' : List Text) (n n' k k' : ℕ)
      → (All (NoPill (IsFile open_file max_name_length)) files
          → All (NoPill (IsFile open_file max_name_length)) files')
      → n' ≤ n
      → k' ≤ k
      → Phase m files n k
      → Phase m files' n' k'
  Phase-keeps (feeding names) files files' n n' k k' keep le le' h = (h.0, keep h.1)
  Phase-keeps (poisoning j) files files' n n' k k' keep le le' h = tt
  Phase-keeps joining files files' n n' k k' keep le le' h = tt
  Phase-keeps (poisoning_hosts j) files files' n n' k k' keep le le' h = omega (arith, h, le)
  Phase-keeps joining_hosts files files' n n' k k' keep le le' h = omega (arith, h, le)
  Phase-keeps (cleanup b) files files' n n' k k' keep le le' h =
      (h.0, omega (arith, h.1, le), omega (arith, h.2, le'))

  -- With `sum` the weight of all names of all files: it is the weight of what is still in the files,
  -- in the arrays, in a thread's hand and in the results. A result weighs `v`, a name `w`.
  pub record Account (w : Text → ℕ) (v : Text × Text → ℕ) (sum num_requesters num_resolvers : ℕ)
      (s : Program Q) : Type 0 where
    pub balance :
        of_main w open_file s.main
          + total (of_name (of_file w open_file)) (items s.files)
          + total (carried w) s.requesters
          + total (of_name w) (items s.hosts)
          + total (in_hand v) s.resolvers
          + total v s.results
        ≡ sum
    pub requesters : All (IsRequester max_name_length) s.requesters
    pub file_pool :
        Pool
          (IsFile open_file max_name_length)
          (items s.files)
          (total live s.requesters)
          (unsent_files num_requesters s.main)
          num_requesters
    pub host_pool :
        Pool
          (IsHost max_name_length)
          (items s.hosts)
          (total alive s.resolvers)
          (unsent_hosts num_resolvers s.main)
          num_resolvers
    pub calm :
        (total live s.requesters ≡ 0)
        ⊎ (All (NoPill (IsHost max_name_length)) (items s.hosts)
            × (unsent_hosts num_resolvers s.main ≡ num_resolvers))
    pub phase : Phase s.main (items s.files) (total live s.requesters) (total alive s.resolvers)
    pub threads : (length s.requesters ≡ num_requesters) × (length s.resolvers ≡ num_resolvers)
