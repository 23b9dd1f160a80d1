-- ===== src/Chat/Deliver.antt =====
-- Whom SendMessageAround reaches.
use chat_server_mt.Base.{
  ℕ, ◌^◌, ◌<◌, ◌≡◌, ◌∙◌, ap, ap₂, sym, refl, Bool, ◌&&◌, List, [], ◌∷◌, ◌++◌, map, if◌then◌else◌,
  arith,
}
use chat_server_mt.Packet.{Packet}
use chat_server_mt.User.{User}
use chat_server_mt.Sector.{SectorPos, get_sector_around}
use chat_server_mt.Sector.Around.{count_of, is_near, get_sector_around_lem}
use chat_server_mt.Chat.{
  Server, Output, sends, send_message_uni, send_message_sector, send_cells, send_message_around,
  sign_extend,
}
use chat_server_mt.Chat.Placed.{IsPlaced, count, count-append}

-- The users in the lists of some cells.
receivers_in : Server → List SectorPos → List ℕ
receivers_in s [] = []
receivers_in s (c ∷ cs) = s.sectors c.y c.x ++ receivers_in s cs

-- One packet sent to each of some users, in order.
abbrev pub sends_to : Packet → Server → List ℕ → List Output
sends_to packet s ps = map (λ p. sends (s.users p).ssid packet) ps

-- Whether a user is in the grid, in a cell that differs by at most one from another user's.
abbrev pub is_around : User → User → Bool
is_around v u =
    v.in_sector
    && is_near v.sector_x (sign_extend u.sector_x)
    && is_near v.sector_y (sign_extend u.sector_y)

send_message_sector_lem :
    (packet : Packet) (s : Server) (ps : List ℕ)
    → send_message_sector packet s ps ≡ sends_to packet s ps
unfolding send_message_sector send_message_uni
send_message_sector_lem packet s [] = refl
send_message_sector_lem packet s (p ∷ ps) =
    ap (λ t. sends (s.users p).ssid packet ∷ t) (send_message_sector_lem packet s ps)

sends_to-append :
    (packet : Packet) (s : Server) (ps qs : List ℕ)
    → sends_to packet s (ps ++ qs) ≡ sends_to packet s ps ++ sends_to packet s qs
sends_to-append packet s [] qs = refl
sends_to-append packet s (p ∷ ps) qs =
    ap (λ t. sends (s.users p).ssid packet ∷ t) (sends_to-append packet s ps qs)

send_cells_lem :
    (packet : Packet) (s : Server) (cs : List SectorPos)
    → send_cells packet s cs ≡ sends_to packet s (receivers_in s cs)
unfolding send_cells receivers_in
send_cells_lem packet s [] = refl
send_cells_lem packet s (c ∷ cs) =
    ap₂ ◌++◌ (send_message_sector_lem packet s (s.sectors c.y c.x)) (send_cells_lem packet s cs)
    ∙ sym (sends_to-append packet s (s.sectors c.y c.x) (receivers_in s cs))

count-receivers_in :
    (s : Server) (p : ℕ) (cs : List SectorPos)
    → IsPlaced s
    → count p (receivers_in s cs)
      ≡ (if (s.users p).in_sector then count_of (s.users p).sector_x (s.users p).sector_y cs else 0)
unfolding receivers_in count count_of
count-receivers_in s p [] v = ground arith
count-receivers_in s p (c ∷ cs) v = ground (
  arith,
  count-append p (s.sectors c.y c.x) (receivers_in s cs),
  v.listed p c.y c.x,
  count-receivers_in s p cs v,
)

sign_extend-lt : (v : ℕ) → v < 2 ^ 16 → sign_extend v < 2 ^ 32
unfolding sign_extend
sign_extend-lt v h = ground arith

-- When the lists of the sectors are right and the coordinates of a user are shorts,
-- SendMessageAround sends the packet once to each user in the grid whose cell differs from that of
-- the user by at most one in each coordinate, and to nobody else; the users are those of a list in
-- which each such user is counted once and each other one not at all.
pub send_message_around_lem :
    (packet : Packet) (s : Server) (u : User)
    → IsPlaced s
    → u.sector_x < 2 ^ 16
    → u.sector_y < 2 ^ 16
    → (ps : List ℕ) × (send_message_around packet s u ≡ sends_to packet s ps)
      × ((p : ℕ) → count p ps ≡ (if is_around (s.users p) u then 1 else 0))
unfolding send_message_around
send_message_around_lem packet s u v h k =
    let x = sign_extend u.sector_x in
    let y = sign_extend u.sector_y in
    (
      receivers_in s (get_sector_around x y),
      send_cells_lem packet s (get_sector_around x y),
      λ p. ground (
        arith,
        count-receivers_in s p (get_sector_around x y) v,
        get_sector_around_lem (s.users p).sector_x (s.users p).sector_y x y
            (sign_extend-lt u.sector_x h) (sign_extend-lt u.sector_y k),
      ),
    )
