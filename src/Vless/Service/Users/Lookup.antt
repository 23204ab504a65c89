-- ===== src/Vless/Service/Users/Lookup.antt =====
-- Who is served, and who is not (vless/service.go: UpdateUsers, NewConnection).
use sing_vmess.Base.{
  ◌≡◌, refl, sym, ◌∙◌, subst, ◌⊎◌, inl, inr, Bool, true, false, ◌&&◌, Option, none, some, List, [],
  ◌∷◌, ◌++◌, arith, ◌==◌, ==_iff, Bool-cases, All, ok, ok-ne-err, ok-injective, Bytes,
}
use sing_vmess.Vless.Request.{Request, command_udp, command_mux}
use sing_vmess.Address.{Serializer}
use sing_vmess.Vless.Client.{command_tcp}
use sing_vmess.Vless.Service.Users.{
  look_up, Service, Entry, add_users, update_users, flow_vision, same_bytes, Handed, to_packets,
  to_stream, to_mux, flow_of_user, hand_over, with_flow, serve_user, serve_found, serve,
}

pub same_bytes_refl : (b : Bytes) → same_bytes b b ≡ true
unfolding same_bytes
same_bytes_refl [] = refl
same_bytes_refl (x ∷ xs) = ground (arith, same_bytes_refl xs)

pub same_bytes_sound : (a b : Bytes) → same_bytes a b ≡ true → a ≡ b
unfolding same_bytes
same_bytes_sound [] [] e = refl
same_bytes_sound [] (y ∷ ys) e = ground arith
same_bytes_sound (x ∷ xs) [] e = ground arith
same_bytes_sound (x ∷ xs) (y ∷ ys) e = ground (arith, same_bytes_sound xs ys)

-- The entries behind do not touch a key that they do not have.
module _ {T : Type 0} (same : T → T → Bool) (user_id : Bytes → Bytes) where
  look_up-user_map :
      (es : List (Entry T)) (v : Service T) (k : Bytes)
      → All (λ f. same_bytes (user_id f.id) k ≡ false) es
      → look_up same_bytes (add_users user_id es v).user_map k ≡ look_up same_bytes v.user_map k
  unfolding add_users look_up
  look_up-user_map [] v k none_there = refl
  look_up-user_map (f ∷ es) v k (e, none_there) =
      look_up-user_map es
        (record {
          user_map = (user_id f.id, f.name) ∷ v.user_map;
          user_flow = (f.name, f.flow) ∷ v.user_flow;
        })
        k none_there
      ∙ rw e refl

  look_up-user_flow :
      (es : List (Entry T)) (v : Service T) (k : T)
      → All (λ f. same f.name k ≡ false) es
      → look_up same (add_users user_id es v).user_flow k ≡ look_up same v.user_flow k
  unfolding add_users look_up
  look_up-user_flow [] v k none_there = refl
  look_up-user_flow (f ∷ es) v k (e, none_there) =
      look_up-user_flow es
        (record {
          user_map = (user_id f.id, f.name) ∷ v.user_map;
          user_flow = (f.name, f.flow) ∷ v.user_flow;
        })
        k none_there
      ∙ rw e refl

  add_users-append :
      (es fs : List (Entry T)) (v : Service T)
      → add_users user_id (es ++ fs) v ≡ add_users user_id fs (add_users user_id es v)
  unfolding add_users
  add_users-append [] fs v = refl
  add_users-append (e ∷ es) fs v = add_users-append es fs _

  user_map-update_users :
      (before later : List (Entry T)) (e : Entry T) (v : Service T)
      → All (λ f. same_bytes (user_id f.id) (user_id e.id) ≡ false) later
      → look_up same_bytes (update_users user_id (before ++ (e ∷ later)) v).user_map (user_id e.id)
        ≡ some e.name
  unfolding update_users add_users look_up
  user_map-update_users before later e v ids =
      let start : Service T = record { user_map = []; user_flow = [] } in
      rw (add_users-append before (e ∷ later) start)
        (look_up-user_map later _ (user_id e.id) ids ∙ rw (same_bytes_refl (user_id e.id)) refl)

  user_flow-update_users :
      (before later : List (Entry T)) (e : Entry T) (v : Service T)
      → same e.name e.name ≡ true
      → All (λ f. same f.name e.name ≡ false) later
      → look_up same (update_users user_id (before ++ (e ∷ later)) v).user_flow e.name ≡ some e.flow
  unfolding update_users add_users look_up
  user_flow-update_users before later e v here names =
      let start : Service T = record { user_map = []; user_flow = [] } in
      rw (add_users-append before (e ∷ later) start)
        (look_up-user_flow later _ e.name names ∙ rw here refl)

  module _ {A : Type 0} (s : Serializer A) (refl_same : (t : T) → same t t ≡ true) where
    served :
        (v : Service T) (e : Entry T) (r : Request A) (conn : Bytes)
        → look_up same v.user_flow e.name ≡ some e.flow
        → r.flow ≡ e.flow
        → r.command ≡ command_tcp
        → (e.flow ≡ []) ⊎ (e.flow ≡ flow_vision)
        → serve_user s same true v e.name r conn
          ≡ ok (to_stream (same_bytes e.flow flow_vision) e.name r.destination) conn
    unfolding serve_user with_flow hand_over flow_of_user
    served v e r conn found hf hc (inl plain) =
        let none : same_bytes [] flow_vision ≡ false = unfold same_bytes in refl in
        rw (hf, hc, found, plain, none, same_bytes_refl []) refl
    served v e r conn found hf hc (inr vision) =
        rw (hf, hc, found, vision, same_bytes_refl flow_vision) refl

    -- After UpdateUsers the last entry of an id and of a name is in force, whatever came before it and
    -- whatever the service had: a TCP request with that id and with the flow of the entry, which is no flow or the
    -- vision flow, is handed to the handler as a stream of that user to its destination, inside a VisionConn exactly
    -- for the vision flow. The comparison of names is reflexive, and the VisionConn can be made.
    pub serve-update_users :
        (before later : List (Entry T)) (e : Entry T) (v : Service T) (r : Request A) (conn : Bytes)
        → All (λ f. same_bytes (user_id f.id) (user_id e.id) ≡ false) later
        → All (λ f. same f.name e.name ≡ false) later
        → r.uuid ≡ user_id e.id
        → r.flow ≡ e.flow
        → r.command ≡ command_tcp
        → (e.flow ≡ []) ⊎ (e.flow ≡ flow_vision)
        → serve s same true (update_users user_id (before ++ (e ∷ later)) v) r conn
          ≡ ok (to_stream (same_bytes e.flow flow_vision) e.name r.destination) conn
    unfolding serve serve_found serve_user
    serve-update_users before later e v r conn ids names hu hf hc flow =
        rw (hu, user_map-update_users before later e v ids)
          (served (update_users user_id (before ++ (e ∷ later)) v) e r conn
            (user_flow-update_users before later e v (refl_same e.name) names) hf hc flow)

-- What the handler gets belongs to the user and to the request: the destination, the command, and a VisionConn
-- exactly for the vision flow, which does not come with packets.
unfoldable pub IsFor : {A T : Type 0} → T → Request A → Handed A T → Type 0
IsFor user r (to_packets u d) =
    (u ≡ user)
    × (d ≡ r.destination)
    × (r.command ≡ command_udp)
    × (same_bytes r.flow flow_vision ≡ false)
IsFor user r (to_stream b u d) =
    (u ≡ user)
    × (d ≡ r.destination)
    × (r.command ≡ command_tcp)
    × (same_bytes r.flow flow_vision ≡ b)
IsFor user r (to_mux b u) =
    (u ≡ user) × (r.command ≡ command_mux) × (same_bytes r.flow flow_vision ≡ b)

module _ {A T : Type 0} (s : Serializer A) (same : T → T → Bool) where
  hand_over-IsFor :
      (b : Bool) (user : T) (r : Request A) (conn left : Bytes) (h : Handed A T)
      → same_bytes r.flow flow_vision ≡ b
      → hand_over s same b user r conn ≡ ok h left
      → IsFor user r h
  unfolding hand_over IsFor
  hand_over-IsFor b user r conn left h hb e = elim (Bool-cases (r.command == command_tcp)) [
    | inl tcp ↦
        subst (IsFor user r) (ok-injective (rw tcp at e)) (refl, refl, (==_iff _ _).0 tcp, hb)
    | inr otherwise ↦ elim (Bool-cases (r.command == command_mux)) [
      | inl mux ↦
          subst (IsFor user r) (ok-injective (rw (otherwise, mux) at e))
            (refl, (==_iff _ _).0 mux, hb)
      | inr neither ↦ absurd (ok-ne-err (sym (rw (otherwise, neither) at e)))
    ]
  ]

  with_flow-IsFor :
      (vision_ok : Bool) (user : T) (r : Request A) (conn left : Bytes) (h : Handed A T)
      → with_flow s same vision_ok user r conn ≡ ok h left
      → IsFor user r h
  unfolding with_flow
  with_flow-IsFor vision_ok user r conn left h e =
      elim (Bool-cases (same_bytes r.flow flow_vision)) [
        | inl vision ↦ elim (Bool-cases vision_ok) [
          | inl made ↦ hand_over-IsFor true user r conn left h vision (rw (vision, made) at e)
          | inr otherwise ↦ absurd (ok-ne-err (sym (rw (vision, otherwise) at e)))
        ]
        | inr plain ↦ elim (Bool-cases (same_bytes r.flow [])) [
          | inl empty ↦ hand_over-IsFor false user r conn left h plain (rw (plain, empty) at e)
          | inr otherwise ↦ absurd (ok-ne-err (sym (rw (plain, otherwise) at e)))
        ]
      ]

  serve_user-IsFor :
      (vision_ok : Bool) (v : Service T) (user : T) (r : Request A) (conn left : Bytes)
      (h : Handed A T)
      → serve_user s same vision_ok v user r conn ≡ ok h left
      → (r.flow ≡ flow_of_user s same v user) × IsFor user r h
  unfolding serve_user IsFor
  serve_user-IsFor vision_ok v user r conn left h e =
      let vision = same_bytes r.flow flow_vision in
      let own = same_bytes r.flow (flow_of_user s same v user) in
      elim (Bool-cases (vision && r.command == command_udp)) [
        | inl refused ↦ absurd (ok-ne-err (sym (rw refused at e)))
        | inr fine ↦ elim (Bool-cases own) [
          | inr other ↦ absurd (ok-ne-err (sym (rw (fine, other) at e)))
          | inl mine ↦ (
            same_bytes_sound r.flow _ mine,
            elim (Bool-cases (r.command == command_udp)) [
              | inl udp ↦
                  subst (IsFor user r) (ok-injective (rw (fine, mine, udp) at e))
                    (refl, refl, (==_iff _ _).0 udp, ground arith)
              | inr otherwise ↦
                  with_flow-IsFor vision_ok user r conn left h (rw (fine, mine, otherwise) at e)
            ],
          )
        ]
      ]

  -- A request that is served is one of a user: its id is in the map, its flow is the user's, and what the handler
  -- gets is for that user and for the destination and the command of the request, through a VisionConn exactly if
  -- the flow is the vision flow, and then it is no packets.
  pub serve-IsFor :
      (vision_ok : Bool) (v : Service T) (r : Request A) (conn left : Bytes) (h : Handed A T)
      → serve s same vision_ok v r conn ≡ ok h left
      → (user : T) × (look_up same_bytes v.user_map r.uuid ≡ some user)
        × (r.flow ≡ flow_of_user s same v user)
        × IsFor user r h
  unfolding serve serve_found
  serve-IsFor vision_ok v r conn left h e = found (look_up same_bytes v.user_map r.uuid) refl e
    where
      found :
          (o : Option T)
          → look_up same_bytes v.user_map r.uuid ≡ o
          → serve_found s same vision_ok v o r conn ≡ ok h left
          → (user : T) × (look_up same_bytes v.user_map r.uuid ≡ some user)
            × (r.flow ≡ flow_of_user s same v user)
            × IsFor user r h
      found none at e = absurd (ground arith)
      found (some user) at e =
          (let (flow, for) = serve_user-IsFor vision_ok v user r conn left h e in
            (user, at, flow, for))
