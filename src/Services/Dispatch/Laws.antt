-- ===== src/Services/Dispatch/Laws.antt =====
-- In which order callbacks are called, against a description that lists all calls.
use config_manager.Prelude.{
  ℕ, ◌≡◌, refl, sym, ap, ◌∙◌, Bool, List, [], ◌∷◌, ◌++◌, map, nat_beq, filter_where, Bool-cases,
  inl, inr,
}
use mathlib.Core.List.{append_assoc, append-nil}
use config_manager.Services.Dispatch.{
  Callback, Registry, no_callbacks, register, call_each, handle_error, process_messages,
}

-- a call of `register`: the key and the callback
abbrev pub Registration : Type 0 → Type 0 → Type 0 → Type 0
Registration K D S = K × Callback D S

-- one call of a callback
abbrev pub Call : Type 0 → Type 0 → Type 0
Call D S = Callback D S × D

-- What a list of calls does, one after another.
unfoldable pub run_calls : {D S : Type 0} → List (Call D S) → S → S
run_calls [] s = s
run_calls (c ∷ cs) s = run_calls cs (c.0 c.1 s).state

run_calls-append :
    {D S : Type 0} (cs ds : List (Call D S)) (s : S)
    → run_calls (cs ++ ds) s ≡ run_calls ds (run_calls cs s)
unfolding run_calls
run_calls-append [] ds s = refl
run_calls-append (c ∷ cs) ds s = run_calls-append cs ds (c.0 c.1 s).state

module _ {K D S : Type 0} (code : K → ℕ) where
  unfoldable pub register_all : List (Registration K D S) → Registry K D S → Registry K D S
  register_all [] registry = registry
  register_all (r ∷ rs) registry = register_all rs (register code r.0 r.1 registry)

  -- the registrations for a key
  abbrev pub wanted : K → Registration K D S → Bool
  wanted k r = nat_beq (code k) (code r.0)

  -- the calls for one message: of each callback that was registered for its type, the first one first
  abbrev pub calls_for : List (Registration K D S) → K × D → List (Call D S)
  calls_for rs m = map (λ (r : Registration K D S). (r.1, m.1)) (filter_where (wanted m.0) rs)

  unfoldable pub all_calls : List (Registration K D S) → List (K × D) → List (Call D S)
  all_calls rs [] = []
  all_calls rs (m ∷ ms) = calls_for rs m ++ all_calls rs ms

  register_all-lem :
      (rs : List (Registration K D S)) (registry : Registry K D S) (k : K)
      → register_all rs registry k
        ≡ registry k ++ map (λ (r : Registration K D S). r.1) (filter_where (wanted k) rs)
  unfolding register_all register filter_where
  register_all-lem [] registry k = sym (append-nil (registry k))
  register_all-lem (r ∷ rs) registry k = elim (Bool-cases (nat_beq (code k) (code r.0))) [
    | inl e ↦ rw (register_all-lem rs (register code r.0 r.1 registry) k, e, append_assoc)
    | inr e ↦ rw (register_all-lem rs (register code r.0 r.1 registry) k, e)
  ]

  call_each-run_calls :
      (rs : List (Registration K D S)) (d : D) (s : S)
      → call_each (map (λ (r : Registration K D S). r.1) rs) d s
        ≡ run_calls (map (λ (r : Registration K D S). (r.1, d)) rs) s
  unfolding call_each run_calls
  call_each-run_calls [] d s = refl
  call_each-run_calls (r ∷ rs) d s = call_each-run_calls rs d (r.1 d s).state

  -- After registrations, an error is told to the callbacks of its type and to no other, in the order of their
  -- registration, whichever of them raise.
  pub handle_error-calls :
      (rs : List (Registration K D S)) (k : K) (d : D) (s : S)
      → handle_error (register_all rs no_callbacks) k d s ≡ run_calls (calls_for rs (k, d)) s
  unfolding handle_error no_callbacks
  handle_error-calls rs k d s =
      rw (register_all-lem rs no_callbacks k) (call_each-run_calls (filter_where (wanted k) rs) d s)

  -- The messages of the queue, in their order, are each told to the callbacks of their type, in the order of their
  -- registration, and to no other, whichever of these raise.
  pub process_messages-calls :
      (rs : List (Registration K D S)) (ms : List (K × D)) (s : S)
      → process_messages (register_all rs no_callbacks) ms s ≡ run_calls (all_calls rs ms) s
  unfolding process_messages all_calls
  process_messages-calls rs [] s = unfold run_calls in refl
  process_messages-calls rs (m ∷ ms) s =
      let told : call_each (register_all rs no_callbacks m.0) m.1 s ≡ run_calls (calls_for rs m) s =
        unfold handle_error in handle_error-calls rs m.0 m.1 s in
      process_messages-calls rs ms (call_each (register_all rs no_callbacks m.0) m.1 s)
      ∙ ap (run_calls (all_calls rs ms)) told
      ∙ sym (run_calls-append (calls_for rs m) (all_calls rs ms) s)
