-- ===== src/Tests/Sock.antt =====
-- A frame that is longer than the buffer that it is read with.
use mure.Base.{◌≡◌, refl, [], ◌∷◌, ◌++◌, codes}
use mure.Sock.Frame.{read_frame, write_frame}
use mure.Sock.Frame.Chunks.{judged}
use mure.Sock.Frame.Stream.{read_lines, read_frame-write_frame}

read_frame-write_frame_example :
    read_frame 5 (read_lines 2 2 [] ((codes "abcd" ++ (b'\n' ∷ [])) ++ codes "e"))
    ≡ (judged 5 (codes "abcd"), read_lines 2 2 [] (codes "e"))
unfolding write_frame
read_frame-write_frame_example =
    read_frame-write_frame 5 2 (codes "abcd") (codes "abcd" ++ (b'\n' ∷ [])) (codes "e") refl
      (refl, (refl, (refl, (refl, tt))))
