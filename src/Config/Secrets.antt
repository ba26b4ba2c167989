-- ===== src/Config/Secrets.antt =====
-- Which secret a client is checked against.
use inlets.Common.{
  ℕ, zero, suc, ◌≡◌, ◌≢◌, refl, ap, sym, subst, ◌∙◌, List, [], ◌∷◌, ◌++◌, Bool, true, false, Option,
  none, some, Bytes, bytes_key, Bytes-discrete, ℕ_discrete, arith, get_elem?, if_elim, ok, codes,
}
use inlets.Common.Dict
use inlets.Common.Dict.{Dict, get-put, get-empty}
use inlets.Common.Text.{same_text, is_blank, trim_space}
use inlets.Monitor.Policy.{is_empty}
use inlets.Config.{
  ClientConfig, FileConfig, problem_if, duplicate_of, validate_client_id, seen_after, out_of_range,
  validate_clients, validate_tunnels, validate_with_details, validate, find_client,
  credentials_response, get_token,
}

module _ {ℓ} {A : Type ℓ} where
  append_empty : (xs ys : List A) → xs ++ ys ≡ [] → (xs ≡ []) × (ys ≡ [])
  append_empty [] ys h = (refl, h)
  append_empty (x ∷ xs) ys h = absurd (cc)

-- a client without problems has an identifier that was not seen
id_unseen :
    (seen : Dict Bytes ℕ) (i : ℕ) (id : Bytes)
    → validate_client_id seen i id ≡ []
    → (is_blank (trim_space id) ≡ false) × (Dict.get id seen ≡ none)
unfolding validate_client_id
id_unseen seen i id h =
    if_elim (is_blank (trim_space id)) h (λ e p. absurd (cc))
      (λ e p. (e, duplicate_none (Dict.get id seen) p))
  where
    duplicate_none : (o : Option ℕ) → duplicate_of o i ≡ [] → o ≡ none
    duplicate_none none g = refl
    duplicate_none (some prev) g = absurd (cc)

-- the problems of the first client, and of the others
clients_split :
    (seen : Dict Bytes ℕ) (i : ℕ) (c : ClientConfig) (cs : List ClientConfig)
    → validate_clients seen i (c ∷ cs) ≡ []
    → (validate_client_id seen i c.client_id ≡ [])
      × (validate_clients (seen_after seen i c.client_id) (suc i) cs ≡ [])
unfolding validate_clients
clients_split seen i c cs h =
    let (a, r) = append_empty (validate_client_id seen i c.client_id) _ h in
    let (b, r') = append_empty (problem_if (is_blank (trim_space c.client_secret)) _) _ r in
    let (d, r'') = append_empty (validate_tunnels i 0 c.tunnels) _ r' in (a, r'')

missing_in_put :
    (k j : Bytes) (v : ℕ) (m : Dict Bytes ℕ)
    → Dict.get j (Dict.put k v m) ≡ none
    → (k ≢ j) × (Dict.get j m ≡ none)
missing_in_put k j v m h = (ground (arith, h, get-put k j v m), ground (arith, h, get-put k j v m))

seen_after_full :
    (seen : Dict Bytes ℕ) (i : ℕ) (id : Bytes)
    → is_blank (trim_space id) ≡ false
    → seen_after seen i id ≡ Dict.put id i seen
unfolding seen_after
seen_after_full seen i id h = rw h refl

all_unseen :
    (k : ℕ) (seen : Dict Bytes ℕ) (i : ℕ) (cs : List ClientConfig) (c : ClientConfig)
    → validate_clients seen i cs ≡ []
    → get_elem? cs k ≡ some c
    → Dict.get c.client_id seen ≡ none
all_unseen k seen i [] c h e = absurd (cc)
all_unseen zero seen i (c' ∷ cs) c h e =
    let same : c' ≡ c = cc in
    let (first, rest) = clients_split seen i c' cs h in
    ap (λ (x : ClientConfig). Dict.get x.client_id seen) (sym same)
    ∙ (id_unseen seen i c'.client_id first).1
all_unseen (suc k) seen i (c' ∷ cs) c h e =
    let (first, rest) = clients_split seen i c' cs h in
    let (full, new) = id_unseen seen i c'.client_id first in
    let later = all_unseen k _ (suc i) cs c rest e in
    let after = seen_after_full seen i c'.client_id full in
    (missing_in_put c'.client_id c.client_id i seen
      (ap (λ (m : Dict Bytes ℕ). Dict.get c.client_id m) (sym after) ∙ later)).1

other_text : (a b : Bytes) → a ≢ b → same_text a b ≡ false
unfolding same_text
other_text a b n = ground (arith, n)

same_text_refl : (a : Bytes) → same_text a a ≡ true
unfolding same_text
same_text_refl a = ground arith

found_at :
    (k : ℕ) (seen : Dict Bytes ℕ) (i : ℕ) (cs : List ClientConfig) (c : ClientConfig)
    → validate_clients seen i cs ≡ []
    → get_elem? cs k ≡ some c
    → find_client c.client_id cs ≡ some c
unfolding find_client
found_at k seen i [] c h e = absurd (cc)
found_at zero seen i (c' ∷ cs) c h e =
    let same : c' ≡ c = cc in
    subst (λ (x : ClientConfig). find_client x.client_id (c' ∷ cs) ≡ some x) same
      (rw (same_text_refl c'.client_id) refl)
found_at (suc k) seen i (c' ∷ cs) c h e =
    let (first, rest) = clients_split seen i c' cs h in
    let (full, new) = id_unseen seen i c'.client_id first in
    let later = all_unseen k _ (suc i) cs c rest e in
    let after = seen_after_full seen i c'.client_id full in
    let (other, _) =
      missing_in_put c'.client_id c.client_id i seen
        (ap (λ (m : Dict Bytes ℕ). Dict.get c.client_id m) (sym after) ∙ later) in
    rw (other_text c'.client_id c.client_id other) (found_at k _ (suc i) cs c rest e)

is_empty_nil : {A : Type 0} (xs : List A) → is_empty xs ≡ true → xs ≡ []
is_empty_nil [] h = refl
is_empty_nil (x ∷ xs) h = absurd (cc)

clients_valid :
    (parses : Bytes → Bool) (resolves : FileConfig → Bool) (cfg : FileConfig)
    → validate parses resolves (some cfg) ≡ true
    → validate_clients [] 0 cfg.clients ≡ []
unfolding validate validate_with_details
clients_valid parses resolves cfg h =
    let all = is_empty_nil _ h in
    let r1 = append_empty (problem_if (is_blank (trim_space cfg.domain)) _) _ all in
    let r2 = append_empty (problem_if (out_of_range cfg.port) _) _ r1.1 in
    let r3 = append_empty (problem_if (out_of_range cfg.tcp_port) _) _ r2.1 in
    let r4 = append_empty (problem_if (is_empty cfg.clients) _) _ r3.1 in
    (append_empty (validate_clients [] 0 cfg.clients) _ r4.1).0

-- With a configuration that Validate accepts, each client that it lists is checked by credentials
-- against its own secret and gets its own tunnels: no other entry takes its identifier.
pub get_token-validate :
    (parses : Bytes → Bool) (resolves : FileConfig → Bool) (cfg : FileConfig) (k : ℕ)
    (c : ClientConfig) (type : Bytes)
    → validate parses resolves (some cfg) ≡ true
    → get_elem? cfg.clients k ≡ some c
    → get_token (some cfg) (codes "credentials") c.client_id type
      ≡ ok
          (record { auth_type = codes "credentials"; token = c.client_secret; tunnels = c.tunnels })
unfolding get_token credentials_response same_text Bytes-discrete ℕ_discrete
get_token-validate parses resolves cfg k c type h e =
    let f = found_at k [] 0 cfg.clients c (clients_valid parses resolves cfg h) e in rw f refl
