-- ===== src/Zrp.antt =====
-- ZRP, the resource protocol (zkt/net): the wire format of its messages.
pub mod Msg
