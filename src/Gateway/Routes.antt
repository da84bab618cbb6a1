-- ===== src/Gateway/Routes.antt =====
-- xvector/api/v2/routes.py: the paths that the Writer and the Reader serve, and the service
-- method that answers each.
use xvector.Prelude.{String, List, [], ◌∷◌}

-- `<service>_<method>`
pub data Handler : Type 0 where
  collection_create_database collection_drop_database alias_create alias_drop alias_alter
        collection_create_collection collection_drop_collection collection_rename_collection
        collection_load_collection collection_release_collection partition_create partition_drop
        partition_load partition_release index_create index_drop import_job_create
        import_job_get_progress import_job_list role_create role_drop role_describe role_list
        role_grant_privilege role_revoke_privilege user_create user_drop user_describe user_list
        user_update_password user_grant_role user_revoke_role vector_insert vector_upsert
        vector_delete collection_list_databases collection_describe_database alias_describe
        alias_list collection_describe_collection collection_has_collection
        collection_list_collections collection_get_load_state collection_get_stats partition_has
        partition_list partition_get_stats index_describe index_list vector_get vector_query
        vector_search vector_hybrid_search :
      Handler

-- build_writer_router
unfoldable pub writer_routes : List (String × Handler)
writer_routes =
    ("/databases/create", collection_create_database)
    ∷ ("/databases/drop", collection_drop_database)
    ∷ ("/aliases/create", alias_create)
    ∷ ("/aliases/drop", alias_drop)
    ∷ ("/aliases/alter", alias_alter)
    ∷ ("/collections/create", collection_create_collection)
    ∷ ("/collections/drop", collection_drop_collection)
    ∷ ("/collections/rename", collection_rename_collection)
    ∷ ("/collections/load", collection_load_collection)
    ∷ ("/collections/release", collection_release_collection)
    ∷ ("/partitions/create", partition_create)
    ∷ ("/partitions/drop", partition_drop)
    ∷ ("/partitions/load", partition_load)
    ∷ ("/partitions/release", partition_release)
    ∷ ("/indexes/create", index_create)
    ∷ ("/indexes/drop", index_drop)
    ∷ ("/jobs/import/create", import_job_create)
    ∷ ("/import/create", import_job_create)
    ∷ ("/jobs/import/get_progress", import_job_get_progress)
    ∷ ("/import/get_progress", import_job_get_progress)
    ∷ ("/jobs/import/list", import_job_list)
    ∷ ("/import/list", import_job_list)
    ∷ ("/roles/create", role_create)
    ∷ ("/roles/drop", role_drop)
    ∷ ("/roles/describe", role_describe)
    ∷ ("/roles/list", role_list)
    ∷ ("/roles/lists", role_list)
    ∷ ("/roles/grant_privilege", role_grant_privilege)
    ∷ ("/roles/revoke_privilege", role_revoke_privilege)
    ∷ ("/users/create", user_create)
    ∷ ("/users/drop", user_drop)
    ∷ ("/users/describe", user_describe)
    ∷ ("/users/list", user_list)
    ∷ ("/users/lists", user_list)
    ∷ ("/users/update_password", user_update_password)
    ∷ ("/users/grant_role", user_grant_role)
    ∷ ("/users/revoke_role", user_revoke_role)
    ∷ ("/entities/insert", vector_insert)
    ∷ ("/entities/upsert", vector_upsert)
    ∷ ("/entities/delete", vector_delete)
    ∷ []

-- build_reader_router
unfoldable pub reader_routes : List (String × Handler)
reader_routes =
    ("/databases/list", collection_list_databases)
    ∷ ("/databases/describe", collection_describe_database)
    ∷ ("/aliases/describe", alias_describe)
    ∷ ("/aliases/list", alias_list)
    ∷ ("/collections/describe", collection_describe_collection)
    ∷ ("/collections/has", collection_has_collection)
    ∷ ("/collections/list", collection_list_collections)
    ∷ ("/collections/get_load_state", collection_get_load_state)
    ∷ ("/collections/get_stats", collection_get_stats)
    ∷ ("/partitions/has", partition_has)
    ∷ ("/partitions/list", partition_list)
    ∷ ("/partitions/get_stats", partition_get_stats)
    ∷ ("/indexes/describe", index_describe)
    ∷ ("/indexes/list", index_list)
    ∷ ("/entities/get", vector_get)
    ∷ ("/entities/query", vector_query)
    ∷ ("/entities/search", vector_search)
    ∷ ("/entities/hybrid_search", vector_hybrid_search)
    ∷ []
