-- ===== src/Dav/Tests.antt =====
-- An upload that is cut off, and a link.
use openwrt_demo.Prelude.{ℕ, ◌≡◌, refl, false, none, some, List, [], ◌∷◌, ◌++◌, arith, bytes_of}
use openwrt_demo.Proto.Http.{starts_with}
use openwrt_demo.Dav.Path.{
  sd_root, path_max, has_dotdot, dotdot_loop, skip_slashes, segment, is_dotdot, make_fs_path,
  at_boundary, print_href, request_path, href_bytes, uri_safe, is_alnum, upper_digit,
}
use openwrt_demo.Dav.Path.Confined.{IsConfined, make_fs_path-IsConfined}
use openwrt_demo.Dav.Path.Href.{resolve, resolve-print_href}
use openwrt_demo.Dav.Reader.{Reader}
use openwrt_demo.Dav.Upload.{Sink}

abbrev photo : List ℕ
photo = bytes_of "/a b/c.jpg"

photo_link : print_href (bytes_of "/mnt/sd/a b/c.jpg") false ≡ bytes_of "/dav/a%20b/c.jpg"
unfolding print_href href_bytes uri_safe is_alnum upper_digit
photo_link = refl

photo_below : has_dotdot photo ≡ false
unfolding has_dotdot dotdot_loop skip_slashes segment is_dotdot
photo_below = refl

up_and_away : make_fs_path (bytes_of "/dav/a/../b") path_max ≡ none
unfolding make_fs_path starts_with at_boundary has_dotdot dotdot_loop skip_slashes segment is_dotdot
up_and_away = refl

photo_request : make_fs_path (bytes_of "/dav/a b/c.jpg") path_max ≡ some (sd_root ++ photo)
unfolding make_fs_path starts_with at_boundary has_dotdot dotdot_loop skip_slashes segment is_dotdot
photo_request = refl

make_fs_path-IsConfined_example : IsConfined (sd_root ++ photo)
make_fs_path-IsConfined_example =
    make_fs_path-IsConfined (bytes_of "/dav/a b/c.jpg") (sd_root ++ photo) (omega arith)
      photo_request

resolve-print_href_example :
    resolve (request_path (print_href (sd_root ++ photo) false)) ≡ some (sd_root ++ photo)
unfolding at_boundary print_href href_bytes uri_safe is_alnum
resolve-print_href_example = resolve-print_href photo (ground arith) refl photo_below (omega arith)

abbrev empty : Sink
empty = record { file = []; total = 0; hashed = some [] }

abbrev terminator : List ℕ
terminator = bytes_of "--X"

-- "ab-", then "-b", which begins like the terminator, and an end
abbrev cut_off : Reader
cut_off = record { buf = []; pos = 0; input = bytes_of "ab-" ∷ bytes_of "-bc" ∷ [] }
