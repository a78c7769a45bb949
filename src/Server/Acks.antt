-- ===== src/Server/Acks.antt =====
-- The check of the sequence numbers in `finish` of src/server/server.go, and the responses.
use mathlib.Core.List.{Permᴰ}
use bepper.Base.{
  ℕ, String, ◌≡◌, ◌↔◌, refl, sym, ap, ◌∙◌, subst, true, false, none, some, List, [], ◌∷◌, map,
  length, suc, zero, Bool-cases, Option-cases, inl, inr, arith,
}
use bepper.Base.Int.{ℤ, pos, eqb_ℤ, eqb_ℤ→eq, eqb_ℤ_refl}
use bepper.Base.Sort.{sort, sort-Perm, sort-eq, sort-one, sort-not_less}
use bepper.Blobstore.{Error}
use bepper.Server.Defs.{
  StreamId, Response, Environment, check_acks, send_acks, after_response, sequence_mismatch, fails,
  send_error,
}

-- The numbers i + 1, i + 2, ..., i + n.
unfoldable pub count_from : ℕ → ℕ → List ℤ
count_from i zero = []
count_from i (suc n) = pos (suc i) ∷ count_from (suc i) n

length-Perm {ℓ} : {A : Type ℓ} {xs ys : List A} → Permᴰ xs ys → length xs ≡ length ys
length-Perm Permᴰ.nil = refl
length-Perm (Permᴰ.cons p h) = ap suc (length-Perm h)
length-Perm (Permᴰ.swap p q) = refl
length-Perm (Permᴰ.trans h k) = length-Perm h ∙ length-Perm k

Perm_sym {ℓ} : {A : Type ℓ} {xs ys : List A} → Permᴰ xs ys → Permᴰ ys xs
Perm_sym Permᴰ.nil = Permᴰ.nil
Perm_sym (Permᴰ.cons p h) = Permᴰ.cons (sym p) (Perm_sym h)
Perm_sym (Permᴰ.swap p q) = Permᴰ.swap (sym q) (sym p)
Perm_sym (Permᴰ.trans h k) = Permᴰ.trans (Perm_sym k) (Perm_sym h)

check_acks-same :
    (id : String) (i : ℕ) (ack : ℤ) (acks : List ℤ)
    → eqb_ℤ ack (pos (suc i)) ≡ true
    → check_acks id i (ack ∷ acks) ≡ check_acks id (suc i) acks
unfolding check_acks
check_acks-same id i ack acks h = rw h

check_acks-other :
    (id : String) (i : ℕ) (ack : ℤ) (acks : List ℤ)
    → eqb_ℤ ack (pos (suc i)) ≡ false
    → check_acks id i (ack ∷ acks) ≡ some (sequence_mismatch id ack (pos (suc i)))
unfolding check_acks
check_acks-other id i ack acks h = rw h

check_acks→eq :
    (id : String) (i : ℕ) (acks : List ℤ)
    → check_acks id i acks ≡ none
    → acks ≡ count_from i (length acks)
unfolding check_acks count_from
check_acks→eq id i [] h = refl
check_acks→eq id i (ack ∷ acks) h = elim (Bool-cases (eqb_ℤ ack (pos (suc i)))) [
  | inl same ↦
      let rest = check_acks→eq id (suc i) acks (sym (check_acks-same id i ack acks same) ∙ h) in
      ap (λ x. x ∷ acks) (eqb_ℤ→eq ack (pos (suc i)) same) ∙ ap (λ l. pos (suc i) ∷ l) rest
  | inr other ↦ cc (h, check_acks-other id i ack acks other)
]

check_acks-count_from : (id : String) (i n : ℕ) → check_acks id i (count_from i n) ≡ none
unfolding check_acks count_from
check_acks-count_from id i zero = refl
check_acks-count_from id i (suc n) =
    rw (eqb_ℤ_refl (pos (suc i))) (check_acks-count_from id (suc i) n)

sort-count_from : (i n : ℕ) → sort (count_from i n) ≡ count_from i n
unfolding count_from sort
sort-count_from i zero = refl
sort-count_from i (suc zero) = sort-one (pos (suc i))
sort-count_from i (suc (suc n)) =
    sort-not_less (pos (suc i)) (pos (suc (suc i))) (count_from (suc (suc i)) n) (ground arith)
      (sort-count_from (suc i) (suc n))

-- The check accepts the sorted numbers exactly if they are 1, ..., n in some order.
pub check_acks-sort :
    (id : String) (acks : List ℤ)
    → (check_acks id 0 (sort acks) ≡ none) ↔ Permᴰ acks (count_from 0 (length acks))
check_acks-sort id acks = (
  λ h.
      let e = check_acks→eq id 0 (sort acks) h in
      let p = Perm_sym (sort-Perm acks) in
      subst (λ n. Permᴰ acks (count_from 0 n)) (sym (length-Perm p))
        (subst (λ l. Permᴰ acks l) e p),
  λ p.
      rw (sort-eq acks _ p, sort-count_from 0 (length acks))
        (check_acks-count_from id 0 (length acks)),
)

pub sorted_acks :
    (id : String) (acks : List ℤ)
    → check_acks id 0 (sort acks) ≡ none
    → sort acks ≡ count_from 0 (length acks)
sorted_acks id acks h =
    check_acks→eq id 0 (sort acks) h ∙ ap (count_from 0) (length-Perm (sort-Perm acks))

abbrev pub response : StreamId → ℤ → Response
response id ack = record { stream_id = id; sequence_number = ack }

module _ (env : Environment) (id : StreamId) where
  send_acks-sent :
      (n : ℕ) (ack : ℤ) (acks : List ℤ)
      → env.send n ≡ none
      → send_acks env id n (ack ∷ acks)
        ≡ after_response (response id ack) (send_acks env id (suc n) acks)
  unfolding send_acks
  send_acks-sent n ack acks h = rw (send_acks, h) refl

  send_acks-fails :
      (n : ℕ) (ack : ℤ) (acks : List ℤ) (e : Error)
      → env.send n ≡ some e
      → send_acks env id n (ack ∷ acks) ≡ fails (send_error e)
  unfolding send_acks
  send_acks-fails n ack acks e h = rw (send_acks, h) refl

  -- Without an error every response was sent.
  pub send_acks-all :
      (n : ℕ) (acks : List ℤ)
      → (send_acks env id n acks).error ≡ none
      → (send_acks env id n acks).sent ≡ map (response id) acks
  unfolding send_acks
  send_acks-all n [] h = refl
  send_acks-all n (ack ∷ acks) h = elim (Option-cases (env.send n)) [
    | inl sends ↦
        let step = send_acks-sent n ack acks sends in
        let h' = ap (λ o. o.error) (sym step) ∙ h in
        ap (λ o. o.sent) step ∙ ap (λ l. response id ack ∷ l) (send_acks-all (suc n) acks h')
    | inr (e, fails_with) ↦ cc (h, ap (λ o. o.error) (send_acks-fails n ack acks e fails_with))
  ]

  pub send_acks-no_error :
      (n : ℕ) (acks : List ℤ)
      → ((k : ℕ) → env.send k ≡ none)
      → (send_acks env id n acks).error ≡ none
  unfolding send_acks
  send_acks-no_error n [] h = refl
  send_acks-no_error n (ack ∷ acks) h =
      rw (send_acks-sent n ack acks (h n)) (send_acks-no_error (suc n) acks h)
