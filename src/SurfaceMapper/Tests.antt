-- ===== src/SurfaceMapper/Tests.antt =====
-- Templates of concrete paths.
use security_tool.Prelude.{◌≡◌, refl, codes, split, join, text_beq}
use security_tool.SurfaceMapper.{normalize_path, normalize_segment, looks_like_id}

user_template :
    normalize_path (codes "/users/123/posts/0123456789abcdefABCD") ≡ codes "/users/{id}/posts/{id}"
unfolding normalize_path join split normalize_segment looks_like_id text_beq
user_template = refl
