-- ===== src/Startup/Chosen.antt =====
-- What has come up when the server serves.
use mathlib.Core.Path.{subst}
use pot_play_storage.Prelude.{
  ◌≡◌, refl, sym, ap, ◌∙◌, ◌⊎◌, inl, inr, Bytes, codes, ◌==◌, ==_iff, Bool, true, false, Bool-cases,
  Option-cases, none, some, arith,
}
use pot_play_storage.Errors.{Error, Result, Result-cases, ok, err}
use pot_play_storage.Backend.{StorageBackend}
use pot_play_storage.Config.{Outcome, made, failed, panicked, Pgx, new_db_pool, new_redis}
use pot_play_storage.Local.{Os, new_local_storage, local_storage}
use pot_play_storage.Http.{Http, Response, exchange}
use pot_play_storage.Seaweed.{health_check, health_request}
use pot_play_storage.Seaweed.Simple.{new_simple_storage, simple_storage, simple_urls}
use pot_play_storage.Startup.{
  Configuration, Failure, config_file, Server, Started, serving, stopped, States, local_chosen,
  seaweed_chosen, choose_storage, with_storage, with_pool, start,
}

health_check-none :
    (H : Http) (url : Bytes) (s : H.State)
    → (health_check H url s).0 ≡ none
    → (r : Response) × ((exchange H (health_request url) s).0 ≡ ok r) × (r.status ≡ 200)
unfolding health_check
health_check-none H url s h = elim (Result-cases (exchange H (health_request url) s).0) [
  | inl (r, answered) ↦ (r, answered, ground arith)
  | inr (e, lost) ↦ absurd (ground arith)
]

ok_injective {ℓ} : {A : Type ℓ} {a b : A} → ok a ≡ ok b → a ≡ b
ok_injective {a = a} = ap (λ r. elim r [ ok x ↦ x | err e ↦ a ])

Outcome-cases {ℓ} :
    {A : Type ℓ} (x : Outcome A)
    → ((a : A) × (x ≡ made a)) ⊎ ((e : Error) × (x ≡ failed e)) ⊎ (x ≡ panicked)
Outcome-cases (made a) = inl (a, refl)
Outcome-cases (failed e) = inr (inl (e, refl))
Outcome-cases panicked = inr (inr refl)

abbrev is_ok {ℓ} : {A : Type ℓ} → Result A → Bool
is_ok (ok a) = true
is_ok (err e) = false

err_not_ok {ℓ} : {A : Type ℓ} {a : A} {e : Error} → ◌≡◌ {A = Result A} (err e) (ok a) → ⊥
err_not_ok h = let clash : false ≡ true = ap is_ok h in ground arith

module _ (P : Pgx) (O : Os) (H : Http) where
  -- The store that a configuration names: the directory could be made, or the master has answered
  -- its health check with the status 200.
  abbrev pub IsChosen : Configuration → States P O H → StorageBackend → Type 1
  IsChosen c (o, h) storage =
      ((c.storage_type ≡ codes "local")
        × ((O.mkdir_all c.local_path o).0 ≡ none)
        × (storage ≡ local_storage O c.local_path))
      ⊎ ((c.storage_type ≡ codes "seaweedfs")
          × (r : Response) × ((exchange H (health_request (simple_urls c.master_url).master_url)
                h).0
              ≡ ok r)
          × (r.status ≡ 200)
          × (storage ≡ simple_storage H (simple_urls c.master_url)))

  local_chosen-ok :
      (path : Bytes) (o : O.State) (h : H.State) (storage : StorageBackend)
      → (local_chosen P O H path (o, h)).0 ≡ ok storage
      → ((O.mkdir_all path o).0 ≡ none) × (storage ≡ local_storage O path)
  local_chosen-ok path o h storage e = elim (Option-cases (O.mkdir_all path o).0) [
    | inl fine ↦ (fine, sym (ok_injective (rw (fine, new_local_storage, local_chosen) at e)))
    | inr (x, bad) ↦ absurd (err_not_ok (rw (bad, new_local_storage, local_chosen) at e))
  ]

  seaweed_chosen-ok :
      (url : Bytes) (o : O.State) (h : H.State) (storage : StorageBackend)
      → (seaweed_chosen P O H url (o, h)).0 ≡ ok storage
      → (r : Response) × ((exchange H (health_request (simple_urls url).master_url) h).0 ≡ ok r)
        × (r.status ≡ 200)
        × (storage ≡ simple_storage H (simple_urls url))
  unfolding new_simple_storage
  seaweed_chosen-ok url o h storage e =
      elim (Option-cases (health_check H (simple_urls url).master_url h).0) [
        | inl fine ↦
            let (r, answered, good) = health_check-none H (simple_urls url).master_url h fine in
            (
              r,
              answered,
              good,
              sym (ok_injective (rw (fine, new_simple_storage, seaweed_chosen) at e)),
            )
        | inr (x, bad) ↦ absurd (err_not_ok (rw (bad, new_simple_storage, seaweed_chosen) at e))
      ]

  choose_storage-IsChosen :
      (c : Configuration) (s : States P O H) (storage : StorageBackend)
      → (choose_storage P O H c s).0 ≡ ok storage
      → IsChosen c s storage
  unfolding choose_storage
  choose_storage-IsChosen c (o, h) storage e = elim (Bool-cases (c.storage_type == codes "local")) [
    | inl local ↦
        let (present, same) =
          local_chosen-ok c.local_path o h storage (rw (local, choose_storage) at e) in
        inl ((==_iff c.storage_type (codes "local")).0 local, present, same)
    | inr other ↦ elim (Bool-cases (c.storage_type == codes "seaweedfs")) [
      | inl seaweed ↦
          let (r, answered, good, same) =
            seaweed_chosen-ok c.master_url o h storage (rw (other, seaweed, choose_storage) at e) in
          inr ((==_iff c.storage_type (codes "seaweedfs")).0 seaweed, r, answered, good, same)
      | inr unknown ↦ absurd (err_not_ok (rw (other, unknown, choose_storage) at e))
    ]
  ]

  is_serving : Started P O H → Bool
  is_serving (serving v) = true
  is_serving (stopped f) = false

  not_serving :
      {f : Failure} {v : Server P O H} → ◌≡◌ {A = Started P O H} (stopped f) (serving v) → ⊥
  unfolding is_serving
  not_serving h = let clash : false ≡ true = ap is_serving h in ground arith

  served : {u v : Server P O H} → ◌≡◌ {A = Started P O H} (serving u) (serving v) → u ≡ v
  served {u = u} = ap (λ t. elim t [ serving x ↦ x | stopped f ↦ u ])

  -- The server serves only if everything has come up: the configuration file that is there was read,
  -- the pool of the database was opened from it, the settings of Redis have a host, and the store is
  -- the one that "storage.type" names: the local store, whose directory could be made, or the store
  -- over SeaweedFS, whose master has answered its health check with the status 200.
  pub start-IsChosen :
      (has_local : Bool) (read_config : Bytes → Result Configuration) (s : States P O H)
      (server : Server P O H)
      → (start P O H has_local read_config s).0 ≡ serving server
      → (c : Configuration) × (read_config (config_file has_local) ≡ ok c)
        × (new_db_pool P c.database ≡ made server.pool)
        × (new_redis c.redis ≡ some server.cache)
        × IsChosen c s server.storage
  unfolding start
  start-IsChosen has_local read_config s server e =
      elim (Result-cases (read_config (config_file has_local))) [
        | inr (x, unread) ↦ absurd (not_serving (rw (unread, start) at e))
        | inl (c, loaded) ↦ elim (Outcome-cases (new_db_pool P c.database)) [
          | inr (inl (x, bad)) ↦ absurd (not_serving (rw (loaded, bad, start) at e))
          | inr (inr bad) ↦ absurd (not_serving (rw (loaded, bad, start) at e))
          | inl (pool, opened) ↦ elim (Option-cases (new_redis c.redis)) [
            | inl bad ↦ absurd (not_serving (rw (loaded, opened, bad, start, with_pool) at e))
            | inr (cache, fine) ↦ elim (Result-cases (choose_storage P O H c s).0) [
              | inr (x, bad) ↦ absurd (
                  not_serving (rw (loaded, opened, fine, bad, start, with_pool, with_storage) at e))
              | inl (storage, chosen) ↦
                  let same =
                    served
                      (rw (loaded, opened, fine, chosen, start, with_pool, with_storage) at e) in
                  (
                    c,
                    loaded,
                    opened ∙ ap (λ (v : Server P O H). made v.pool) same,
                    fine ∙ ap (λ (v : Server P O H). some v.cache) same,
                    subst (IsChosen c s) (ap (λ (v : Server P O H). v.storage) same)
                        (choose_storage-IsChosen c s storage chosen),
                  )
            ]
          ]
        ]
      ]
