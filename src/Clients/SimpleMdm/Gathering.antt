-- ===== src/Clients/SimpleMdm/Gathering.antt =====
-- `_paginated` gathers the whole of a listing.
use mathlib.Core.List.{append-nil, append_assoc}
use relops_bootstrap.Prelude.{
  Bool-cases, ℕ, zero, suc, ◌<◌, ◌⊎◌, inl, inr, ◌≡◌, ◌≢◌, refl, sym, ap, ◌∙◌, true, false, not,
  Option, none, some, List, [], ◌∷◌, ◌++◌, length, length-append, Text, arith,
}
use relops_bootstrap.Effects.{
  World, History, ok, pure, ask, of_secret, call, ◌>>=◌, resolved, Item, Listing, Request,
  list_page, Response, page, http, http_call,
}
use relops_bootstrap.Clients.SimpleMdm.{
  of_http, raise_for_status, send, is_retry_status, request_loop, request,
}
use relops_bootstrap.Clients.SimpleMdm.Pages.{as_page, last_id, no_items, pages_loop, paginated}

-- What follows that start in the listing.
pub data Follows (whole : List Item) : Option ℕ → List Item → Type 0 where
  from_start : Follows whole none whole
  behind :
      (before : List Item) (i : Item) (rest : List Item)
      → whole ≡ before ++ (i ∷ rest)
      → Follows whole (some i.id) rest

-- A page of a listing: some of what follows the start, at least one item if there is one, and whether
-- more follows.
pub record IsPage (rest : List Item) (r : Response) : Type 0 where
  pub items : List Item
  pub tail : List Item
  pub is_ok : r.status_code ≡ 200
  pub body : r.body ≡ page items (not (no_items tail))
  pub splits : rest ≡ items ++ tail
  pub not_idle : (no_items items ≡ false) ⊎ (tail ≡ [])

-- SimpleMDM serves the listing: the key is there, and each request for a page gets one. It is the
-- documented behaviour of its list endpoints while the listing does not change.
pub record IsListed (w : World) (path : Listing) (whole : List Item) : Type 0 where
  pub key : Text
  pub has_key : w.api_key ≡ resolved key
  pub serves :
      (h : History) (start : Option ℕ) (rest : List Item)
      → Follows whole start rest
      → (r : Response) × (w.request h (list_page path start) ≡ some r) × IsPage rest r

request-ok :
    (w : World) (q : Request) (r : Response) (key : Text) (h : History)
    → w.api_key ≡ resolved key
    → w.request h q ≡ some r
    → r.status_code ≡ 200
    → request q w h ≡ (ok r, http q (some r) ∷ h)
unfolding request request_loop send ask of_secret pure http_call call of_http is_retry_status
    raise_for_status ◌>>=◌
request-ok w q r key h has_key answer code = rw (has_key, answer, code) refl

-- After a page that is not empty, the next one starts behind its last item.
next-Follows :
    (whole before : List Item) (i : Item) (items tail : List Item)
    → whole ≡ before ++ (i ∷ (items ++ tail))
    → Follows whole (last_id (some i.id) items) tail
unfolding last_id
next-Follows whole before i [] tail e = behind before i tail e
next-Follows whole before i (j ∷ items) tail e =
    next-Follows whole (before ++ (i ∷ [])) j items tail
      (e ∙ sym (append_assoc before (i ∷ []) (j ∷ (items ++ tail))))

page-Follows :
    (whole out rest : List Item) (start : Option ℕ) (items tail : List Item)
    → whole ≡ out ++ rest
    → rest ≡ items ++ tail
    → no_items items ≡ false
    → Follows whole (last_id start items) tail
unfolding last_id no_items
page-Follows whole out rest start [] tail e split some_items = absurd (cc)
page-Follows whole out rest start (i ∷ items) tail e split some_items =
    next-Follows whole out i items tail (e ∙ ap (λ l. out ++ l) split)

no_items-nil : (is : List Item) → no_items is ≡ true → is ≡ []
unfolding no_items
no_items-nil [] e = refl
no_items-nil (i ∷ is) e = absurd (cc)

more_is_some : (is : List Item) → is ≡ [] → no_items is ≢ false
unfolding no_items
more_is_some [] e h = cc
more_is_some (i ∷ is) e h = cc

gathered :
    (whole out rest items tail : List Item)
    → whole ≡ out ++ rest
    → rest ≡ items ++ tail
    → whole ≡ (out ++ items) ++ tail
gathered whole out rest items tail e split =
    e ∙ ap (λ l. out ++ l) split ∙ sym (append_assoc out items tail)

shorter :
    (rest items tail : List Item) (fuel : ℕ)
    → rest ≡ items ++ tail
    → no_items items ≡ false
    → length rest < suc fuel
    → length tail < fuel
unfolding no_items
shorter rest [] tail fuel split some_items enough = absurd (cc)
shorter rest (i ∷ items) tail fuel split some_items enough =
    let size : length rest ≡ length ((i ∷ items) ++ tail) = ap length split in
    omega (arith, size, length-append (i ∷ items) tail)

module _ (w : World) (path : Listing) (whole : List Item) (listed : IsListed w path whole) where
  pages_loop-whole :
      (fuel : ℕ) (start : Option ℕ) (out rest : List Item) (h : History)
      → Follows whole start rest
      → whole ≡ out ++ rest
      → length rest < fuel
      → (pages_loop fuel path start out w h).0 ≡ ok whole
  unfolding pages_loop as_page pure ◌>>=◌
  pages_loop-whole zero start out rest h follows e enough = absurd (omega arith)
  pages_loop-whole (suc fuel) start out rest h follows e enough =
      let (r, answer, p) = listed.serves h start rest follows in
      let sent = request-ok w (list_page path start) r listed.key h listed.has_key answer p.is_ok in
      let all = gathered whole out rest p.items p.tail e p.splits in
      elim (Bool-cases (no_items p.tail)) [
        | inl last ↦
            rw (sent, p.body, last)
              (ap ok (
                sym (
                  all
                  ∙ ap (λ t. (out ++ p.items) ++ t) (no_items-nil p.tail last)
                  ∙ append-nil (out ++ p.items))))
        | inr more ↦ elim p.not_idle [
          | inr none_left ↦ absurd (more_is_some p.tail none_left more)
          | inl some_items ↦
              rw (sent, p.body, more, some_items)
                (pages_loop-whole fuel (last_id start p.items) (out ++ p.items) p.tail _
                  (page-Follows whole out rest start p.items p.tail e p.splits some_items) all
                  (shorter rest p.items p.tail fuel p.splits some_items enough))
        ]
      ]

-- Where SimpleMDM serves a listing, page by page and from any start, `_paginated` returns the whole of
-- it in its order, if the model's bound on pages is above the number of its items.
pub paginated-whole :
    (w : World) (path : Listing) (whole : List Item) (h : History)
    → IsListed w path whole
    → length whole < w.page_fuel
    → (paginated path w h).0 ≡ ok whole
unfolding paginated ask ◌>>=◌
paginated-whole w path whole h listed enough =
    pages_loop-whole w path whole listed w.page_fuel none [] whole h from_start refl enough
