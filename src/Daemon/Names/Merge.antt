-- ===== src/Daemon/Names/Merge.antt =====
-- `merge_list_names` against a description with no set of names seen.
use mathlib.Core.List.{append-nil, append_assoc}
use dbus_router.Bus.{Bus}
use dbus_router.Daemon.Body.{shown_name}
use dbus_router.Daemon.Names.{merge_names, merge_list_names}
use dbus_router.Prelude.{
  ◌≡◌, refl, sym, ◌∙◌, ap, true, ◌||◌, List, [], ◌∷◌, ◌++◌, map, arith, if◌then◌else◌, Bytes,
  Bool-cases, inl, inr, str_eq, str_eq_iff, contains,
}

-- The names that are not `name`.
unfoldable pub without : Bytes → List Bytes → List Bytes
without name [] = []
without name (x ∷ xs) = let rest = without name xs in if str_eq name x then rest else x ∷ rest

-- Each name once, where it stands first.
unfoldable pub keep_first : List Bytes → List Bytes
unfolding without
keep_first [] = []
keep_first (x ∷ xs) = x ∷ without x (keep_first xs)

-- The names that are in none of `seen`.
without_all : List Bytes → List Bytes → List Bytes
without_all seen [] = []
without_all seen (x ∷ xs) =
    let rest = without_all seen xs in if contains seen x then rest else x ∷ rest

without_all-cons :
    (s : Bytes) (seen xs : List Bytes) → without_all (s ∷ seen) xs ≡ without_all seen (without s xs)
unfolding without_all without contains
without_all-cons s seen [] = refl
without_all-cons s seen (x ∷ xs) = ground (arith, without_all-cons s seen xs)

without-without_all :
    (s : Bytes) (seen xs : List Bytes) → without_all (s ∷ seen) xs ≡ without s (without_all seen xs)
unfolding without_all without contains
without-without_all s seen [] = refl
without-without_all s seen (x ∷ xs) = ground (arith, without-without_all s seen xs)

without_all-without :
    (s : Bytes) (seen xs : List Bytes)
    → contains seen s ≡ true
    → without_all seen (without s xs) ≡ without_all seen xs
unfolding without_all without
without_all-without s seen [] h = refl
without_all-without s seen (x ∷ xs) h =
    ground (arith, str_eq_iff s x, without_all-without s seen xs h)

without_all-nil : (xs : List Bytes) → without_all [] xs ≡ xs
unfolding without_all contains
without_all-nil [] = refl
without_all-nil (x ∷ xs) = ap (◌∷◌ x) (without_all-nil xs)

without_all-congr :
    (s t xs : List Bytes)
    → ((x : Bytes) → contains s x ≡ contains t x)
    → without_all s xs ≡ without_all t xs
unfolding without_all
without_all-congr s t [] h = refl
without_all-congr s t (x ∷ xs) h = ground (arith, h x, without_all-congr s t xs h)

without-append :
    (s : Bytes) (xs ys : List Bytes) → without s (xs ++ ys) ≡ without s xs ++ without s ys
unfolding without
without-append s [] ys = refl
without-append s (x ∷ xs) ys = ground (arith, without-append s xs ys)

keep_first-append :
    (xs ys : List Bytes) → keep_first (xs ++ ys) ≡ keep_first xs ++ without_all xs (keep_first ys)
unfolding keep_first
keep_first-append [] ys = sym (without_all-nil (keep_first ys))
keep_first-append (x ∷ xs) ys =
    ap (λ (l : List Bytes). x ∷ without x l) (keep_first-append xs ys)
    ∙ ap (◌∷◌ x) (
        without-append x (keep_first xs) (without_all xs (keep_first ys))
        ∙ ap (λ (l : List Bytes). without x (keep_first xs) ++ l)
            (sym (without-without_all x xs (keep_first ys))))

-- What the loop has seen, and what it has listed.
merge_names-seen :
    (bus : Bus) (seen result names : List Bytes) (k : Bytes)
    → contains (merge_names bus seen result names).0 k
      ≡ (contains seen k || contains (map (shown_name bus) names) k)
unfolding merge_names contains
merge_names-seen bus seen result [] k = ground arith
merge_names-seen bus seen result (name ∷ names) k =
    elim (Bool-cases (contains seen (shown_name bus name))) [
      | inl known ↦
          rw (known, merge_names)
            (ground
              (arith, merge_names-seen bus seen result names k, str_eq_iff (shown_name bus name) k))
      | inr new ↦
          rw (new, merge_names)
            (ground (
              arith,
              merge_names-seen bus (shown_name bus name ∷ seen) (result ++ shown_name bus name ∷ [])
                  names k,
            ))
    ]

merge_names-result :
    (bus : Bus) (seen result names : List Bytes)
    → (merge_names bus seen result names).1
      ≡ result ++ without_all seen (keep_first (map (shown_name bus) names))
unfolding merge_names keep_first without_all
merge_names-result bus seen result [] = sym (append-nil result)
merge_names-result bus seen result (name ∷ names) =
    let key = shown_name bus name in
    let keys = map (shown_name bus) names in
    elim (Bool-cases (contains seen key)) [
      | inl known ↦
          rw (known, merge_names)
            (merge_names-result bus seen result names
              ∙ ap (λ (l : List Bytes). result ++ l)
                  (sym (without_all-without key seen (keep_first keys) known)))
      | inr new ↦
          rw (new, merge_names)
            (merge_names-result bus (key ∷ seen) (result ++ key ∷ []) names
              ∙ append_assoc result (key ∷ []) _
              ∙ ap (λ (l : List Bytes). result ++ key ∷ l)
                  (without_all-cons key seen (keep_first keys)))
    ]

-- The merged list has every name of the two buses once, the sandbox's first and each bus's in its
-- order, as the client is shown it: a unique name under its bus's prefix.
pub merge_list_names-keep_first :
    (host_names sandbox_names : List Bytes)
    → merge_list_names host_names sandbox_names
      ≡ keep_first
          (map (shown_name Bus.sandbox) sandbox_names ++ map (shown_name Bus.host) host_names)
unfolding merge_list_names contains
merge_list_names-keep_first host_names sandbox_names =
    let s = map (shown_name Bus.sandbox) sandbox_names in
    let h = map (shown_name Bus.host) host_names in
    let first = merge_names Bus.sandbox [] [] sandbox_names in
    merge_names-result Bus.host first.0 first.1 host_names
    ∙ ap (λ (l : List Bytes). l ++ without_all first.0 (keep_first h))
        (merge_names-result Bus.sandbox [] [] sandbox_names ∙ without_all-nil (keep_first s))
    ∙ ap (λ (l : List Bytes). keep_first s ++ l)
        (without_all-congr first.0 s (keep_first h)
          (λ x. merge_names-seen Bus.sandbox [] [] sandbox_names x))
    ∙ sym (keep_first-append s h)
