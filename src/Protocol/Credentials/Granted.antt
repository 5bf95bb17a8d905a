-- ===== src/Protocol/Credentials/Granted.antt =====
-- Who is let in.
use avbox.Prelude.{
  str_eq, eq_iff, String, ◌≡◌, refl, ap, ◌≢◌, inl, inr, true, false, not, Option, none, some, List,
  [], ◌∷◌, ◌++◌, Bool-cases, and_true, any, Result, ok,
}
use text.Mathlib.Text.{starts_with}
use avbox.Protocol.Desk.{Failure, refuse, authentication_required, forbidden, storage_unavailable}
use avbox.Protocol.Credentials.{Credential, RabClient, matches, find_client, authenticate}

abbrev granted : RabClient → Result Failure RabClient
granted client = ok client

-- A credential of the list has the token, none before it does, it has the scope, and the client is
-- its own.
pub record IsGranted (supplied scope : String) (clients : List Credential) (client : RabClient)
    : Type 0 where
  pub before : List Credential
  pub credential : Credential
  pub after : List Credential
  pub place : clients ≡ before ++ (credential ∷ after)
  pub first : any (matches supplied) before ≡ false
  pub token : supplied ≡ credential.token
  pub used : credential.token ≢ ""
  pub scoped : any (λ s. str_eq s scope) credential.scopes ≡ true
  pub known : client ≡ record { client_id = credential.client_id; scopes = credential.scopes }

matches_lem :
    (supplied : String) (c : Credential)
    → matches supplied c ≡ true
    → (supplied ≡ c.token) × (c.token ≢ "")
unfolding matches
matches_lem supplied c h =
    let (used, same) = and_true (not (str_eq c.token "")) (str_eq supplied c.token) h in
    (
      (eq_iff supplied c.token).0 same,
      λ e.
          let f : str_eq c.token "" ≡ true = (eq_iff c.token "").1 e in
          let g : not true ≡ true = rw f at used in absurd cc,
    )

find_client-IsGranted :
    (supplied scope : String) (clients : List Credential) (client : RabClient)
    → find_client supplied scope clients ≡ ok client
    → IsGranted supplied scope clients client
unfolding find_client any
find_client-IsGranted supplied scope [] client h =
    let no : refuse {A = RabClient} 401 authentication_required ≡ granted client = h in absurd cc
find_client-IsGranted supplied scope (c ∷ cs) client h = elim (Bool-cases (matches supplied c)) [
  | inl e ↦ elim (Bool-cases (any (λ s. str_eq s scope) c.scopes)) [
    | inl f ↦
        let (same, used) = matches_lem supplied c e in
        let own : granted (record { client_id = c.client_id; scopes = c.scopes }) ≡ granted client =
          rw (find_client, e, f) at h in
        record {
          before = [];
          credential = c;
          after = cs;
          place = refl;
          first = refl;
          token = same;
          used = used;
          scoped = f;
          known = cc;
        }
    | inr f ↦
        let no : refuse {A = RabClient} 403 forbidden ≡ granted client =
          rw (find_client, e, f) at h in
        absurd cc
  ]
  | inr e ↦
      let rest : find_client supplied scope cs ≡ granted client = rw (find_client, e) at h in
      let g = find_client-IsGranted supplied scope cs client rest in
      record {
        before = c ∷ g.before;
        credential = g.credential;
        after = g.after;
        place = ap (λ xs. c ∷ xs) g.place;
        first = rw e g.first;
        token = g.token;
        used = g.used;
        scoped = g.scoped;
        known = g.known;
      }
]

-- A client is authenticated only by a bearer header, with a credential that the list has: the first
-- one with the supplied token, which is not empty, and that credential has the required scope.
pub authenticate-IsGranted :
    (remove_bearer : String → String) (clients : Option (List Credential))
    (authorization : Option String) (scope : String) (client : RabClient)
    → authenticate remove_bearer clients authorization scope ≡ ok client
    → (header : String) × (listed : List Credential) × (authorization ≡ some header)
      × (clients ≡ some listed)
      × (starts_with header "Bearer " ≡ true)
      × IsGranted (remove_bearer header) scope listed client
unfolding authenticate
authenticate-IsGranted rb clients none scope client h =
    let no : refuse {A = RabClient} 401 authentication_required ≡ granted client = h in absurd cc
authenticate-IsGranted rb none (some header) scope client h =
    elim (Bool-cases (starts_with header "Bearer ")) [
      | inl e ↦
          let no : refuse {A = RabClient} 503 storage_unavailable ≡ granted client = rw e at h in
          absurd cc
      | inr e ↦
          let no : refuse {A = RabClient} 401 authentication_required ≡ granted client =
            rw e at h in
          absurd cc
    ]
authenticate-IsGranted rb (some listed) (some header) scope client h =
    elim (Bool-cases (starts_with header "Bearer ")) [
      | inl e ↦
          let found : find_client (rb header) scope listed ≡ granted client = rw e at h in
          (
            header,
            listed,
            refl,
            refl,
            e,
            find_client-IsGranted (rb header) scope listed client found,
          )
      | inr e ↦
          let no : refuse {A = RabClient} 401 authentication_required ≡ granted client =
            rw e at h in
          absurd cc
    ]
