-- ===== src/Pow/Verifier/Received.antt =====
-- The relayed extrinsics of an imported block, against the blocks that sent them.
