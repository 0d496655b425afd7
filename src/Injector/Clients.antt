-- ===== src/Injector/Clients.antt =====
-- The reference that `ensureClient` returns, as a lookup and a change.
use iran_remote_play.Prelude.{
  ℕ, ◌≡◌, refl, sym, ap, ◌∙◌, inl, inr, List, [], ◌∷◌, true, false, ◌==◌, Bool-cases, arith,
}
use iran_remote_play.Injector.{PerClient, new_client, client_of, ensure_client, with_ref}

nobody : (p : ℕ) → client_of p [] ≡ new_client p
unfolding client_of
nobody p = refl

found :
    (p : ℕ) (c : PerClient) (cs : List PerClient)
    → (c.player_index == p) ≡ true
    → client_of p (c ∷ cs) ≡ c
unfolding client_of
found p c cs e = rw e

passed :
    (p : ℕ) (c : PerClient) (cs : List PerClient)
    → (c.player_index == p) ≡ false
    → client_of p (c ∷ cs) ≡ client_of p cs
unfolding client_of
passed p c cs e = rw e

pub client_of-ensure_client :
    (p : ℕ) (cs : List PerClient) → client_of p (ensure_client p cs) ≡ client_of p cs
unfolding ensure_client
client_of-ensure_client p [] = found p (new_client p) [] (ground arith) ∙ sym (nobody p)
client_of-ensure_client p (c ∷ cs) = elim (Bool-cases (c.player_index == p)) [
  | inl here ↦ rw (ensure_client, here) refl
  | inr there ↦
      rw (ensure_client, there)
        (passed p c _ there ∙ client_of-ensure_client p cs ∙ sym (passed p c cs there))
]

pub client_of-with_ref :
    (p : ℕ) (f : PerClient → PerClient) (cs : List PerClient)
    → ((c : PerClient) → (f c).player_index ≡ c.player_index)
    → client_of p (with_ref p f cs) ≡ f (client_of p cs)
unfolding with_ref
client_of-with_ref p f [] same =
    found p (f (new_client p)) [] (ground (arith, same (new_client p))) ∙ ap f (sym (nobody p))
client_of-with_ref p f (c ∷ cs) same = elim (Bool-cases (c.player_index == p)) [
  | inl here ↦
      rw (with_ref, here)
        (found p (f c) cs (ground (arith, same c)) ∙ ap f (sym (found p c cs here)))
  | inr there ↦
      rw (with_ref, there)
        (passed p c _ there ∙ client_of-with_ref p f cs same ∙ ap f (sym (passed p c cs there)))
]
