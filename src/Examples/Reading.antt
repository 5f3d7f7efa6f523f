-- ===== src/Examples/Reading.antt =====
-- Lines and literals over segments.
use go_managesieve.Common.{◌≡◌, refl, [], ◌∷◌, codes}
use go_managesieve.Server.Reader.{
  Reader, eof, missing_crlf, line_too_long, unexpected_eof, got, refused, read_bounded_line, flat,
}
use go_managesieve.Server.Reader.Lines.{seen, flat_line, read_bounded_line-flat_line}
use go_managesieve.Server.Reader.Full.{read_full, flat_full, read_full-flat_full}

-- "NOOP\r\nLOGOUT\r\n", with a segment that ends between CR and LF.
abbrev split_segments : Reader
split_segments = record {
  buffered = codes "NO";
  incoming = codes "OP\r" ∷ codes "\nLOGOUT\r\n" ∷ [];
  ending = eof;
}

abbrev bare_newline : Reader
bare_newline = record { buffered = []; incoming = codes "NOOP\n" ∷ []; ending = eof }

read_split :
    seen (read_bounded_line 8192 split_segments) ≡ (got (codes "NOOP\r\n"), codes "LOGOUT\r\n")
unfolding read_bounded_line
read_split = refl

read_bare : seen (read_bounded_line 8192 bare_newline) ≡ (refused missing_crlf, [])
unfolding read_bounded_line
read_bare = refl

read_long : seen (read_bounded_line 4 split_segments) ≡ (refused line_too_long, codes "LOGOUT\r\n")
unfolding read_bounded_line
read_long = refl

full_short : seen (read_full 9 bare_newline) ≡ (refused unexpected_eof, [])
unfolding read_full
full_short = refl

read_bounded_line-flat_line_example :
    seen (read_bounded_line 8192 split_segments) ≡ flat_line 8192 eof (flat split_segments)
read_bounded_line-flat_line_example = read_bounded_line-flat_line 8192 split_segments

read_full-flat_full_example :
    seen (read_full 4 split_segments) ≡ flat_full 4 eof (flat split_segments)
read_full-flat_full_example = read_full-flat_full 4 split_segments
