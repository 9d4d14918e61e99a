-- ===== src/Seaweed/Filer.antt =====
-- The store over SeaweedFS meets the laws that the service relies on, if the filer does what its
-- status codes say.
use mathlib.Core.Path.{subst}
use pot_play_storage.Prelude.{
  ℕ, ◌≡◌, ◌≢◌, refl, sym, ap, ◌∙◌, ◌⊎◌, inl, inr, Bool, true, ◌||◌, Option, none, some, Bytes, ◌==◌,
  ==_iff, nat_eq, if◌then◌else◌, arith, Bool-cases, Option-cases, length,
}
use pot_play_storage.Prelude.Int.{ℤ, pos}
use pot_play_storage.Errors.{Error, Result, ok, err}
use pot_play_storage.Backend.{StorageBackend, IsLawful}
use pot_play_storage.Http.{Http, Request, Response, exchange, is_stored}
use pot_play_storage.Seaweed.{get_request, delete_request, read_answer, removal_answer}
use pot_play_storage.Seaweed.Simple.{SimpleStorage, simple_storage, upload_request, upload_answer}

abbrev is_removed : ℕ → Bool
is_removed status = nat_eq status 204 || nat_eq status 200

-- A filer at a URL. `files s p` is the file at a path, and the names are the paths that mean the same
-- within a URL. A request that stores or deletes a file leaves all others alone.
pub record IsFiler (H : Http) (url : Bytes) (IsName : Bytes → Type 0)
    (files : H.State → Bytes → Option Bytes) : Type 0 where
  pub stored :
      (p content : Bytes) (s : H.State) (r : Response)
      → IsName p
      → (H.send (upload_request url p content) s).0 ≡ ok r
      → is_stored r.status ≡ true
      → files (H.send (upload_request url p content) s).1 p ≡ some content
  pub stored_other :
      (p content q : Bytes) (s : H.State)
      → IsName p
      → p ≢ q
      → files (H.send (upload_request url p content) s).1 q ≡ files s q
  pub found :
      (p : Bytes) (s : H.State) (r : Response)
      → IsName p
      → (H.send (get_request url p) s).0 ≡ ok r
      → r.status ≡ 200
      → files s p ≡ some r.body
  pub found_keeps :
      (p q : Bytes) (s : H.State) → files (H.send (get_request url p) s).1 q ≡ files s q
  pub removed :
      (p : Bytes) (s : H.State) (r : Response)
      → IsName p
      → (H.send (delete_request url p) s).0 ≡ ok r
      → is_removed r.status ≡ true
      → files (H.send (delete_request url p) s).1 p ≡ none
  pub absent :
      (p : Bytes) (s : H.State) (r : Response)
      → IsName p
      → (H.send (delete_request url p) s).0 ≡ ok r
      → r.status ≡ 404
      → files (H.send (delete_request url p) s).1 p ≡ none
  pub removed_other :
      (p q : Bytes) (s : H.State)
      → IsName p
      → p ≢ q
      → files (H.send (delete_request url p) s).1 q ≡ files s q

-- An answer that does not fail is a response with one of the statuses for it.
upload_answer-ok :
    (content : Bytes) (a : Result Response) (n : ℤ)
    → upload_answer content a ≡ ok n
    → (r : Response) × (a ≡ ok r) × (is_stored r.status ≡ true) × (n ≡ pos (length content))
unfolding upload_answer
upload_answer-ok content (err e) n h = absurd (ground arith)
upload_answer-ok content (ok r) n h = elim (Bool-cases (is_stored r.status)) [
  | inl done ↦ (r, refl, done, ground arith)
  | inr failed ↦ absurd (ground arith)
]

pub read_answer-ok :
    (p content : Bytes) (a : Result Response)
    → read_answer p a ≡ ok content
    → (r : Response) × (a ≡ ok r) × (r.status ≡ 200) × (r.body ≡ content)
unfolding read_answer
read_answer-ok p content (err e) h = absurd (ground arith)
read_answer-ok p content (ok r) h = (r, refl, ground arith, ground arith)

removal_answer-ok :
    (a : Result Response)
    → removal_answer a ≡ ok tt
    → (r : Response) × (a ≡ ok r) × ((is_removed r.status ≡ true) ⊎ (r.status ≡ 404))
unfolding removal_answer
removal_answer-ok (err e) h = absurd (ground arith)
removal_answer-ok (ok r) h = elim (Bool-cases (nat_eq r.status 404)) [
  | inl gone ↦ (r, refl, inr (ground arith))
  | inr other ↦ (r, refl, inl (ground arith))
]

module _ (H : Http) where
  -- An exchange is refused at once or sent.
  exchange_cases :
      (r : Request) (s : H.State)
      → ((e : Error) × (exchange H r s ≡ (err e, s))) ⊎ (exchange H r s ≡ H.send r s)
  exchange_cases r s = elim (Option-cases (H.refuses r.url)) [
    | inl fine ↦ inr (rw (fine, exchange) refl)
    | inr (e, bad) ↦ inl (e, rw (bad, exchange) refl)
  ]

  -- What holds after a request that is sent and, if it is not, before.
  pub after_exchange :
      (r : Request) (s : H.State) (P : Result Response × H.State → Type 0)
      → ((e : Error) → P (err e, s))
      → P (H.send r s)
      → P (exchange H r s)
  after_exchange r s P unsent sent = elim (exchange_cases r s) [
    | inl (e, bad) ↦ subst P (sym bad) (unsent e)
    | inr fine ↦ subst P (sym fine) sent
  ]

  module _ (urls : SimpleStorage) (IsName : Bytes → Type 0) (files : H.State → Bytes → Option Bytes)
      (F : IsFiler H urls.filer_url IsName files) where
    abbrev store : StorageBackend
    store = simple_storage H urls

    put_other :
        (p content q : Bytes) (size : ℤ) (s : H.State)
        → IsName p
        → p ≢ q
        → files (store.put p content size s).1 q ≡ files s q
    put_other p content q size s name n =
        after_exchange (upload_request urls.filer_url p content) s
          (λ out. files out.1 q ≡ files s q) (λ e. refl) (F.stored_other p content q s name n)

    put_done :
        (p content : Bytes) (size n : ℤ) (s : H.State)
        → IsName p
        → (store.put p content size s).0 ≡ ok n
        → (files (store.put p content size s).1 p ≡ some content) × (n ≡ pos (length content))
    put_done p content size n s name =
        after_exchange (upload_request urls.filer_url p content) s
          (λ out.
            upload_answer content out.0 ≡ ok n
            → (files out.1 p ≡ some content) × (n ≡ pos (length content)))
          (λ e h.
            absurd
              (let (r, sent, good, size) = upload_answer-ok content (err e) n h in ground arith))
          (λ h.
            let (r, sent, good, size) = upload_answer-ok content _ n h in
            (F.stored p content s r name sent good, size))

    put_ok :
        (p content q : Bytes) (size n : ℤ) (s : H.State)
        → IsName p
        → (store.put p content size s).0 ≡ ok n
        → files (store.put p content size s).1 q ≡ (if p == q then some content else files s q)
    put_ok p content q size n s name h = elim (Bool-cases (p == q)) [
      | inl same ↦ rw same (
          subst (λ (t : Bytes). files (store.put p content size s).1 t ≡ some content)
            ((==_iff p q).0 same) (put_done p content size n s name h).0)
      | inr other ↦ rw other (put_other p content q size s name (λ e. ground (arith, ==_iff p q)))
    ]

    get_ok :
        (p content : Bytes) (s : H.State)
        → IsName p
        → (store.get p s).0 ≡ ok content
        → files s p ≡ some content
    get_ok p content s name =
        after_exchange (get_request urls.filer_url p) s
          (λ out. read_answer p out.0 ≡ ok content → files s p ≡ some content)
          (λ e h.
            absurd (let (r, sent, good, body) = read_answer-ok p content (err e) h in ground arith))
          (λ h.
            let (r, sent, good, body) = read_answer-ok p content _ h in
            F.found p s r name sent good ∙ ap some body)

    get_keeps : (p q : Bytes) (s : H.State) → files (store.get p s).1 q ≡ files s q
    get_keeps p q s =
        after_exchange (get_request urls.filer_url p) s (λ out. files out.1 q ≡ files s q)
          (λ e. refl) (F.found_keeps p q s)

    delete_ok :
        (p : Bytes) (s : H.State)
        → IsName p
        → (store.delete p s).0 ≡ ok tt
        → files (store.delete p s).1 p ≡ none
    delete_ok p s name =
        after_exchange (delete_request urls.filer_url p) s
          (λ out. removal_answer out.0 ≡ ok tt → files out.1 p ≡ none)
          (λ e h. absurd (let (r, sent, good) = removal_answer-ok (err e) h in ground arith))
          (λ h.
            let (r, sent, good) = removal_answer-ok _ h in
            elim good [
              | inl gone ↦ F.removed p s r name sent gone
              | inr missing ↦ F.absent p s r name sent missing
            ])

    delete_other :
        (p q : Bytes) (s : H.State) → IsName p → p ≢ q → files (store.delete p s).1 q ≡ files s q
    delete_other p q s name n =
        after_exchange (delete_request urls.filer_url p) s (λ out. files out.1 q ≡ files s q)
          (λ e. refl) (F.removed_other p q s name n)

    pub simple_laws : IsLawful store files
    simple_laws = record {
      IsName = IsName;
      put_ok = put_ok;
      put_size = λ p content size n s name h. (put_done p content size n s name h).1;
      put_other = put_other;
      get_ok = get_ok;
      get_keeps = get_keeps;
      delete_ok = delete_ok;
      delete_other = delete_other;
    }

    pub simple_laws-IsName : (q : Bytes) → IsName q → simple_laws.IsName q
    unfolding simple_laws
    simple_laws-IsName q h = h

    -- The store over a filer that does what its status codes say meets the laws of a store of bytes,
    -- for the paths that are names of the filer.
    pub simple_storage-IsLawful : (L : IsLawful store files) × ((q : Bytes) → IsName q → L.IsName q)
    simple_storage-IsLawful = (simple_laws, simple_laws-IsName)
