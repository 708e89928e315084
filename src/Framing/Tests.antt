-- ===== src/Framing/Tests.antt =====
-- Two lines in three chunks, through the decoder of packages/protocol/src/framing.ts.
use foundry_agent_workspace.Base.{◌≡◌, refl, [], ◌∷◌, ok, err, codes}
use foundry_agent_workspace.Framing.{
  bytes_from, byte_length, take_lines, push, push_all, message_too_long,
}
use foundry_agent_workspace.Framing.Chunks.{push_all_chunks}

framing : Unit {0}
unfolding bytes_from take_lines push push_all
framing = tt

scenario :
    (push 4 [] (codes "ab\ncd") ≡ ok (codes "ab" ∷ [], codes "cd"))
    × (push 4 (codes "cd") (codes "e\n\n") ≡ ok (codes "cde" ∷ [] ∷ [], []))
    × (push 4 [] (codes "abcde") ≡ err message_too_long)
    × (byte_length (55357 ∷ 56832 ∷ 233 ∷ []) ≡ 6)
unfolding framing
scenario = (refl, refl, refl, refl)

push_all_chunks_example :
    push_all 4 [] (codes "ab\nc" ∷ codes "d" ∷ codes "\n" ∷ []) ≡ push 4 [] (codes "ab\ncd\n")
push_all_chunks_example = push_all_chunks 4 (codes "ab\nc") (codes "d" ∷ codes "\n" ∷ [])
