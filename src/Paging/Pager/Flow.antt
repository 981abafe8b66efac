-- ===== src/Paging/Pager/Flow.antt =====
-- Sequencing of a pager's calls, and what holds at the end of a run whatever the answers are.
use csci_3753_operating_syst.Prelude.{Bool, Option, none, some}
use csci_3753_operating_syst.Paging.{Sim}
use csci_3753_operating_syst.Paging.Frames.{pagein, pageout}
use csci_3753_operating_syst.Paging.Pager.{Calls, finish, ask_in, ask_out, run_calls}

abbrev pub bind : {A B : Type 0} → Calls A → (A → Calls B) → Calls B
bind (finish a) f = f a
bind (ask_in p page next) f = ask_in p page (λ b. bind (next b) f)
bind (ask_out p page next) f = ask_out p page (λ b. bind (next b) f)

-- A run that may fault: it then ends in `none`.
abbrev pub Run : Type 0 → Type 0
Run A = Calls (Option A)

abbrev pub and_then : {A B : Type 0} → (A → Run B) → Option A → Run B
and_then f none = finish none
and_then f (some a) = f a

infixl 5 ◌>>=◌
abbrev pub ◌>>=◌ : {A B : Type 0} → Run A → (A → Run B) → Run B
m >>= f = bind m (and_then f)

-- Whatever the answers are, the run ends in a value with `P`.
abbrev pub Ends : {A : Type 0} → (A → Type 0) → Calls A → Type 0
Ends P (finish a) = P a
Ends P (ask_in p page next) = (b : Bool) → Ends P (next b)
Ends P (ask_out p page next) = (b : Bool) → Ends P (next b)

-- There is no fault, and the value has `P`.
abbrev pub Sure : {A : Type 0} → (A → Type 0) → Option A → Type 0
Sure P none = ⊥
Sure P (some a) = P a

pub Ends-bind :
    {A B : Type 0} (P : A → Type 0) (Q : B → Type 0) (m : Calls A) (f : A → Calls B)
    → Ends P m
    → ((a : A) → P a → Ends Q (f a))
    → Ends Q (bind m f)
Ends-bind P Q (finish a) f h k = k a h
Ends-bind P Q (ask_in p page next) f h k = λ b. Ends-bind P Q (next b) f (h b) k
Ends-bind P Q (ask_out p page next) f h k = λ b. Ends-bind P Q (next b) f (h b) k

pub Ends->>= :
    {A B : Type 0} (P : A → Type 0) (Q : Option B → Type 0) (m : Run A) (f : A → Run B)
    → Ends (Sure P) m
    → ((a : A) → P a → Ends Q (f a))
    → Ends Q (m >>= f)
Ends->>= {A} P Q m f h k = Ends-bind (Sure P) Q m (and_then f) h keep
  where
    keep : (o : Option A) → Sure P o → Ends Q (and_then f o)
    keep none none_ok = absurd none_ok
    keep (some a) p = k a p

-- A run with the simulator is one of the runs.
pub Ends-run_calls :
    {A : Type 0} (P : A → Type 0) (m : Calls A) (s : Sim) → Ends P m → P (run_calls m s).0
unfolding run_calls
Ends-run_calls P (finish a) s h = h
Ends-run_calls P (ask_in p page next) s h =
    let (b, s') = pagein p page s in Ends-run_calls P (next b) s' (h b)
Ends-run_calls P (ask_out p page next) s h =
    let (b, s') = pageout p page s in Ends-run_calls P (next b) s' (h b)

pub Ends-weaken :
    {A : Type 0} (P Q : A → Type 0) (m : Calls A) → ((a : A) → P a → Q a) → Ends P m → Ends Q m
Ends-weaken P Q (finish a) w h = w a h
Ends-weaken P Q (ask_in p page next) w h = λ b. Ends-weaken P Q (next b) w (h b)
Ends-weaken P Q (ask_out p page next) w h = λ b. Ends-weaken P Q (next b) w (h b)
