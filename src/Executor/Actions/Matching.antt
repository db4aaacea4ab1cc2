-- ===== src/Executor/Actions/Matching.antt =====
-- Which resources `getMatchingResources` selects.
use mathlib.Core.List.{append_assoc, append-nil}
use k8s_cleaner.Common.{
  String, Bool, true, false, ◌&&◌, ◌≡◌, refl, sym, ◌∙◌, subst, some, List, [], ◌∷◌, ◌++◌, ok, ◌>>=◌,
  >>=-eq-ok, ok-injective, if◌then◌else◌,
}
use k8s_cleaner.Api.{ResourceSelector}
use k8s_cleaner.Executor.Cluster.{Objects, Cluster}
use k8s_cleaner.Executor.Lua.{Tables}
use k8s_cleaner.Executor.Fetch.{fetch_resources}
use k8s_cleaner.Executor.Scripts.{Interpreter, ResourceResult, is_match}
use k8s_cleaner.Executor.Actions.{match_resources, get_matching_resources}

module _ (o : Objects) (lua : Tables) (i : Interpreter o lua) (sr : ResourceSelector) where
  open o use {Obj, is_deleted}

  -- What one round of the loop does, by its verdict.
  match_resources-skip :
      (r : Obj) (rs : List Obj) (acc : List (ResourceResult Obj))
      → (sr.exclude_deleted && is_deleted r) ≡ true
      → match_resources o lua i sr (r ∷ rs) acc ≡ match_resources o lua i sr rs acc
  unfolding match_resources
  match_resources-skip r rs acc p = rw p refl

  match_resources-keep :
      (r : Obj) (rs : List Obj) (acc : List (ResourceResult Obj)) {m : String}
      → (sr.exclude_deleted && is_deleted r) ≡ false
      → is_match o lua i r sr.evaluate ≡ ok (true, m)
      → match_resources o lua i sr (r ∷ rs) acc
        ≡ match_resources o lua i sr rs (acc ++ record { resource = r; message = m } ∷ [])
  unfolding match_resources
  match_resources-keep r rs acc p q = rw (p, q) refl

  match_resources-pass :
      (r : Obj) (rs : List Obj) (acc : List (ResourceResult Obj)) {m : String}
      → (sr.exclude_deleted && is_deleted r) ≡ false
      → is_match o lua i r sr.evaluate ≡ ok (false, m)
      → match_resources o lua i sr (r ∷ rs) acc ≡ match_resources o lua i sr rs acc
  unfolding match_resources
  match_resources-pass r rs acc p q = rw (p, q) refl

  match_resources-verdict :
      (r : Obj) (rs : List Obj) (acc : List (ResourceResult Obj))
      {results : List (ResourceResult Obj)}
      → (sr.exclude_deleted && is_deleted r) ≡ false
      → match_resources o lua i sr (r ∷ rs) acc ≡ ok results
      → (v : Bool × String) × (is_match o lua i r sr.evaluate ≡ ok v)
  unfolding match_resources
  match_resources-verdict r rs acc p e =
      let (v, q, h) = >>=-eq-ok (is_match o lua i r sr.evaluate) _ (sym tested ∙ e) in (v, q)
    where
      tested : match_resources o lua i sr (r ∷ rs) acc ≡ (
          is_match o lua i r sr.evaluate >>= λ verdict.
          if verdict.0
          then match_resources o lua i sr rs
              (acc ++ record { resource = r; message = verdict.1 } ∷ [])
          else match_resources o lua i sr rs acc)
      tested = rw p refl

  -- What the loop adds to the results: the resources that are not excluded and that the script
  -- accepts, in order, each with the message of the script.
  pub data Selects : List Obj → List (ResourceResult Obj) → Type 0 where
    done : Selects [] []
    excluded :
        {r : Obj} {rs : List Obj} {found : List (ResourceResult Obj)}
        → (sr.exclude_deleted && is_deleted r) ≡ true
        → Selects rs found
        → Selects (r ∷ rs) found
    accepted :
        {r : Obj} {m : String} {rs : List Obj} {found : List (ResourceResult Obj)}
        → (sr.exclude_deleted && is_deleted r) ≡ false
        → is_match o lua i r sr.evaluate ≡ ok (true, m)
        → Selects rs found
        → Selects (r ∷ rs) (record { resource = r; message = m } ∷ found)
    rejected :
        {r : Obj} {m : String} {rs : List Obj} {found : List (ResourceResult Obj)}
        → (sr.exclude_deleted && is_deleted r) ≡ false
        → is_match o lua i r sr.evaluate ≡ ok (false, m)
        → Selects rs found
        → Selects (r ∷ rs) found

  Found : List Obj → List (ResourceResult Obj) → List (ResourceResult Obj) → Type 0
  Found rs acc results =
      (found : List (ResourceResult Obj)) × (results ≡ acc ++ found) × Selects rs found

  match_resources-cons :
      (r : Obj) (rs : List Obj) (acc results : List (ResourceResult Obj)) (b : Bool)
      → (sr.exclude_deleted && is_deleted r) ≡ b
      → match_resources o lua i sr (r ∷ rs) acc ≡ ok results
      → ((acc' : List (ResourceResult Obj))
          → match_resources o lua i sr rs acc' ≡ ok results
          → Found rs acc' results)
      → Found (r ∷ rs) acc results
  unfolding Found
  match_resources-cons r rs acc results true p e rec =
      let (found, q, s) = rec acc (sym (match_resources-skip r rs acc p) ∙ e) in
      (found, q, excluded p s)
  match_resources-cons r rs acc results false p e rec = go (match_resources-verdict r rs acc p e)
    where
      go :
          (v : Bool × String) × (is_match o lua i r sr.evaluate ≡ ok v) → Found (r ∷ rs) acc results
      go ((true, m), q) =
          let (found, eq, s) = rec _ (sym (match_resources-keep r rs acc p q) ∙ e) in
          (
            record { resource = r; message = m } ∷ found,
            eq ∙ append_assoc acc _ found,
            accepted p q s,
          )
      go ((false, m), q) =
          let (found, eq, s) = rec acc (sym (match_resources-pass r rs acc p q) ∙ e) in
          (found, eq, rejected p q s)

  match_resources-Found :
      (rs : List Obj) (acc results : List (ResourceResult Obj))
      → match_resources o lua i sr rs acc ≡ ok results
      → Found rs acc results
  unfolding match_resources Found
  match_resources-Found [] acc results e = ([], sym (ok-injective e) ∙ sym (append-nil acc), done)
  match_resources-Found (r ∷ rs) acc results e =
      match_resources-cons r rs acc results _ refl e
        (λ acc' h. match_resources-Found rs acc' results h)

  get_matching_resources-fetched :
      (c : Cluster Obj) (fetched : List Obj)
      → fetch_resources c sr ≡ ok (some fetched)
      → get_matching_resources o lua i c sr ≡ match_resources o lua i sr fetched []
  unfolding get_matching_resources
  get_matching_resources-fetched c fetched f = rw f refl

  -- When `getMatchingResources` succeeds, its results are, in order and with the script's message,
  -- exactly the fetched resources that are not excluded as deleted and that the script accepts; the
  -- script ran without an error on every resource that was not excluded.
  pub get_matching_resources-Selects :
      (c : Cluster Obj) (fetched : List Obj) (results : List (ResourceResult Obj))
      → fetch_resources c sr ≡ ok (some fetched)
      → get_matching_resources o lua i c sr ≡ ok results
      → Selects fetched results
  unfolding Found
  get_matching_resources-Selects c fetched results f e =
      let (found, eq, s) =
        match_resources-Found fetched [] results
          (sym (get_matching_resources-fetched c fetched f) ∙ e) in
      subst (Selects fetched) (sym eq) s
