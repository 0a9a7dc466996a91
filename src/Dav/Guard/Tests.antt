-- ===== src/Dav/Guard/Tests.antt =====
-- A link below the root that leads out of it.
use openwrt_demo.Prelude.{
  ℕ, ◌≡◌, refl, Bool, true, ◌||◌, some, List, [], ◌∷◌, ◌++◌, if◌then◌else◌, arith, bytes_of,
  same_bytes,
}
use openwrt_demo.Proto.Http.{starts_with, same_letters}
use openwrt_demo.Dav.Path.{
  make_fs_path, at_boundary, has_dotdot, dotdot_loop, skip_slashes, segment, is_dotdot,
  existing_prefix, prefix_loop, back_to_slash, under_root,
}
use openwrt_demo.Dav.Guard.{
  absent, directory, other_file, Files, prefix_allowed, inside, guarded, list_directory, op_ls,
  list_kind, trim_slash, op_delete, delete_kind, derived_paths, derived_path, base_len, last_index,
  name_of, add_derived, is_derived_name, is_part_name, has_suffix,
}
use openwrt_demo.Dav.Guard.Link.{inside-slashed}

abbrev is_link : List ℕ → Bool
is_link path = same_bytes path (bytes_of "/mnt/sd/out")

abbrev files : Files
files = record {
  access = λ path. same_bytes path (bytes_of "/mnt/sd/") || is_link path;
  realpath = λ path. if is_link path then some (bytes_of "/etc") else some (bytes_of "/mnt/sd");
  stat = λ path. if is_link path then directory else absent;
  lstat = λ path. other_file;
  opendir = λ path. true;
  unlink = λ path. true;
}

-- The directory outside is listed.
lists_outside : op_ls files (bytes_of "/dav/out") true ≡ list_directory (bytes_of "/mnt/sd/out")
unfolding op_ls list_kind trim_slash guarded inside prefix_allowed make_fs_path at_boundary
    has_dotdot dotdot_loop skip_slashes segment is_dotdot existing_prefix prefix_loop back_to_slash
    under_root starts_with
lists_outside = refl

deletes : op_delete files (bytes_of "/dav/a.b/c.jpg") ≡ (
  204,
  bytes_of "/mnt/sd/a.b/c.jpg"
      ∷ bytes_of "/mnt/sd/a.b/c.thumb.jpg"
      ∷ bytes_of "/mnt/sd/a.b/c.preview.jpg"
      ∷ bytes_of "/mnt/sd/a.b/c.preview.mp4"
      ∷ [],
)
unfolding op_delete delete_kind derived_paths derived_path base_len last_index name_of add_derived
    is_derived_name is_part_name has_suffix same_letters guarded inside prefix_allowed make_fs_path
    at_boundary has_dotdot dotdot_loop skip_slashes segment is_dotdot existing_prefix prefix_loop
    back_to_slash under_root starts_with
deletes = refl

inside-slashed_example :
    inside files (bytes_of "/mnt/sd" ++ (b'/' ∷ []) ++ bytes_of "out")
    ≡ inside files (bytes_of "/mnt/sd" ++ (b'/' ∷ []))
inside-slashed_example =
    inside-slashed files (bytes_of "/mnt/sd") (bytes_of "out") (refl, (refl, (refl, tt)))
      (omega arith)
